-- ===== src/Cluster/System/Placement.antt =====
-- The machines of a bootstrap of antsd/internal/cluster/bootstrap.go in their places: the ones that are
-- built before the ones that are not.
use zero_config_ha_cluster.Common.{
  ℕ, suc, ◌+◌, ◌≤◌, ◌≡◌, refl, sym, ap, ◌∙◌, ◌⊎◌, inl, inr, true, false, List, [], ◌∷◌, ◌++◌, map,
  none, some, String, length, contains, ltb, min, if◌then◌else◌, arith,
}
use zero_config_ha_cluster.Node.State.{
  State, State-discrete, is_state, discovering, stable_server, stable_agent,
}
use zero_config_ha_cluster.Node.Persist.{load}
use zero_config_ha_cluster.Node.Role.{rank, desired_server_count}
use zero_config_ha_cluster.Cluster.View.{find_k3s_join_target, find_existing_k3s_cluster_member}
use zero_config_ha_cluster.Cluster.Manager.{Manager, Config, new_manager}
use zero_config_ha_cluster.Cluster.Rejoin.{choose_initial_state}
use zero_config_ha_cluster.Cluster.System.{is_stable_server, servers}
use zero_config_ha_cluster.Cluster.System.Observation.{
  fresh, member_of, names, servers-observed, IsNamed-observed, found-observed, existing-observed,
}
use zero_config_ha_cluster.Cluster.System.Machine.{placed}

pub servers-append : (xs ys : List Manager) → servers (xs ++ ys) ≡ servers xs + servers ys
servers-append [] ys = omega arith
servers-append (x ∷ xs) ys = ground (arith, servers-append xs ys)

pub servers-place :
    (pre post : List Manager) (m : Manager)
    → is_stable_server m ≡ false
    → servers (pre ++ (m ∷ post)) ≡ servers pre + servers post
servers-place pre post m e = ground (arith, servers-append pre (m ∷ post))

pub not_server :
    (m : Manager) (st : State)
    → m.state ≡ st
    → is_state st stable_server ≡ false
    → is_stable_server m ≡ false
not_server m st e h = rw e h

pub fresh-state : (grace settle : ℕ) (c : Config) → (fresh grace settle c).state ≡ discovering
unfolding choose_initial_state load
fresh-state grace settle c = refl

-- The machines of a finished bootstrap, the first of the rank `r`: servers, and behind them agents.
abbrev pub ArePlaced : ℕ → ℕ → List Manager → Type 0
ArePlaced n r [] = Unit {0}
ArePlaced n r (m ∷ ms) =
    (m.state ≡ (if ltb r (desired_server_count n) then stable_server else stable_agent))
    × ArePlaced n (suc r) ms

-- Every configuration names a machine of its rank among all of them.
abbrev pub AreRanked : List String → ℕ → List Config → Type 0
AreRanked all r [] = Unit {0}
AreRanked all r (c ∷ cs) = (rank all c.node_name ≡ some r) × AreRanked all (suc r) cs

pub names-place :
    (pre post : List Manager) (m m' : Manager)
    → m.config ≡ m'.config
    → names (pre ++ (m ∷ post)) ≡ names (pre ++ (m' ∷ post))
names-place [] post m m' e = ap (λ k. k.node_name ∷ names post) e
names-place (x ∷ pre) post m m' e = ap (λ l. x.config.node_name ∷ l) (names-place pre post m m' e)

pub ArePlaced-append :
    (n r : ℕ) (pre : List Manager) (m : Manager)
    → ArePlaced n r pre
    → m.state ≡ placed n (r + length pre)
    → ArePlaced n r (pre ++ (m ∷ []))
ArePlaced-append n r [] m a e = (e ∙ ap (placed n) (omega arith), tt)
ArePlaced-append n r (x ∷ pre) m (b, a) e =
    (b, ArePlaced-append n (suc r) pre m a (e ∙ ap (placed n) (omega arith)))

pub fresh-servers :
    (grace settle : ℕ) (cs : List Config) → servers (map (fresh grace settle) cs) ≡ 0
unfolding State-discrete
fresh-servers grace settle [] = refl
fresh-servers grace settle (c ∷ cs) = ground (
  arith,
  not_server (fresh grace settle c) discovering (fresh-state grace settle c) refl,
  fresh-servers grace settle cs,
)

pub placed-server :
    (n r : ℕ) (m : Manager)
    → m.state ≡ placed n r
    → is_stable_server m ≡ ltb r (desired_server_count n)
placed-server n r m e = ground arith

pub fresh-config : (grace settle : ℕ) (c : Config) → c ≡ (fresh grace settle c).config
unfolding choose_initial_state load new_manager
fresh-config grace settle c = refl

pub names-fresh :
    (grace settle : ℕ) (cs : List Config)
    → names (map (fresh grace settle) cs) ≡ map (λ c. c.node_name) cs
names-fresh grace settle [] = refl
names-fresh grace settle (c ∷ cs) =
    ap (λ k. k.node_name ∷ names (map (fresh grace settle) cs)) (sym (fresh-config grace settle c))
    ∙ ap (λ l. c.node_name ∷ l) (names-fresh grace settle cs)

pub length-map : (cs : List Config) → length (map (λ c. c.node_name) cs) ≡ length cs
length-map [] = refl
length-map (c ∷ cs) = omega (arith, length-map cs)

pub joins-observed :
    (grace settle : ℕ) (c : Config) (cs : List Config) (pre : List Manager) (n : ℕ)
    → contains (names (pre ++ (fresh grace settle c ∷ map (fresh grace settle) cs))) "" ≡ false
    → servers (pre ++ (fresh grace settle c ∷ map (fresh grace settle) cs))
      ≡ min (length pre) (desired_server_count n)
    → 1 ≤ desired_server_count n
    → ((find_existing_k3s_cluster_member
            (map member_of (pre ++ (fresh grace settle c ∷ map (fresh grace settle) cs)))
          ≡ none)
        × (length pre ≡ 0))
      ⊎ (((find_k3s_join_target
              (map member_of (pre ++ (fresh grace settle c ∷ map (fresh grace settle) cs)))).1
            ≡ true)
          × (1 ≤ length pre))
joins-observed grace settle c cs [] n h k p = inl (existing-observed grace settle (c ∷ cs), refl)
joins-observed grace settle c cs (x ∷ pre) n h k p =
    let all = (x ∷ pre) ++ (fresh grace settle c ∷ map (fresh grace settle) cs) in
    inr (
      found-observed (map member_of all) (IsNamed-observed all h)
          (omega (arith, servers-observed all, k, p)),
      omega arith,
    )
