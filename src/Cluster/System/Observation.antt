-- ===== src/Cluster/System/Observation.antt =====
-- What a machine observes of a system whose tags have all arrived (antsd/internal/cluster/view.go).
use zero_config_ha_cluster.Common.{
  ℕ, ◌≤◌, ◌≡◌, refl, ap, inl, inr, Bool, true, false, List, [], ◌∷◌, map, none, String, str_eq,
  count_if, contains, arith, In, here, there,
}
use zero_config_ha_cluster.Node.State.{
  State, State-discrete, is_state, to_string, discovering, bootstrap_waiting, stable_server,
  stable_agent, in_cluster,
}
use zero_config_ha_cluster.Node.Tag.{tag_in_cluster, of_string}
use zero_config_ha_cluster.Node.Persist.{missing, load}
use zero_config_ha_cluster.Cluster.View.{
  Member, View, is_alive, is_alive_in, is_member_alive_or_failed, state_tag, get_tag,
  alive_member_names, stable_server_count, find_k3s_join_target, find_existing_k3s_cluster_member,
}
use zero_config_ha_cluster.Cluster.View.Selection.{IsNamed, lowest_named_alive_member_in-Answers}
use zero_config_ha_cluster.Cluster.Manager.{Manager, Env, Config, new_manager}
use zero_config_ha_cluster.Cluster.Rejoin.{choose_initial_state}
use zero_config_ha_cluster.Cluster.System.{is_stable_server, servers}

-- A machine on its first boot.
abbrev pub fresh : ℕ → ℕ → Config → Manager
fresh grace settle c = choose_initial_state missing (new_manager c grace settle)

-- A machine as Serf shows it, and what a machine observes of a system.
abbrev pub member_of : Manager → Member
member_of m = record {
  name = m.config.node_name;
  ip = "10.0.0.1";
  status = "alive";
  tags = ("state", to_string m.state) ∷ [];
}

abbrev pub env_of : List Manager → Env
env_of ms = record {
  snapshot = λ _. map member_of ms;
  now = λ _. 0;
  local_ip = "10.0.0.1";
  sends = λ _. true;
  removes = λ _ _. true;
}

abbrev pub names : List Manager → List String
names ms = map (λ m. m.config.node_name) ms

pub names-observed : (ms : List Manager) → alive_member_names (map member_of ms) ≡ names ms
unfolding alive_member_names is_alive
names-observed [] = refl
names-observed (m ∷ ms) = ap (λ l. m.config.node_name ∷ l) (names-observed ms)

same_tag : (s : State) → str_eq (to_string s) "stable_server" ≡ is_state s stable_server
unfolding to_string State-discrete
same_tag State.starting = refl
same_tag discovering = refl
same_tag State.bootstrap_confirm = refl
same_tag bootstrap_waiting = refl
same_tag State.bootstrap_install_init = refl
same_tag State.bootstrap_install_server = refl
same_tag State.bootstrap_install_agent = refl
same_tag State.bootstrap_failed = refl
same_tag State.joining_waiting = refl
same_tag State.joining_cleanup = refl
same_tag State.joining_agent = refl
same_tag State.joining_failed = refl
same_tag State.rejoin_cluster = refl
same_tag State.rejoin_failed = refl
same_tag State.rescale_coordinating = refl
same_tag State.rescale_promoting = refl
same_tag State.rescale_demoting = refl
same_tag State.rescale_failed = refl
same_tag stable_server = refl
same_tag stable_agent = refl

is_alive_in-member_of : (m : Manager) → is_alive_in stable_server (member_of m) ≡ is_stable_server m
unfolding is_alive_in is_alive state_tag get_tag to_string
is_alive_in-member_of m = same_tag m.state

pub servers-observed : (ms : List Manager) → stable_server_count (map member_of ms) ≡ servers ms
unfolding stable_server_count
servers-observed [] = refl
servers-observed (m ∷ ms) = ground (arith, is_alive_in-member_of m, servers-observed ms)

pub IsNamed-observed :
    (ms : List Manager) → contains (names ms) "" ≡ false → IsNamed (map member_of ms)
IsNamed-observed [] h = tt
IsNamed-observed (m ∷ ms) h = (ground arith, IsNamed-observed ms (ground arith))

count_if-none :
    (v : View) (p : Member → Bool) → ((c : Member) → In c v → p c ≡ false) → count_if p v ≡ 0
count_if-none [] p h = refl
count_if-none (m ∷ v) p h =
    ground (arith, h m (here refl), count_if-none v p (λ c i. h c (there i)))

pub found-observed :
    (v : View) → IsNamed v → 1 ≤ stable_server_count v → (find_k3s_join_target v).1 ≡ true
unfolding stable_server_count find_k3s_join_target
found-observed v n l = elim (lowest_named_alive_member_in-Answers v stable_server n) [
  | inl (e, _) ↦ e
  | inr (e, h) ↦ absurd (omega (arith, l, count_if-none v (is_alive_in stable_server) h))
]

pub existing-observed :
    (grace settle : ℕ) (cs : List Config)
    → find_existing_k3s_cluster_member (map member_of (map (fresh grace settle) cs)) ≡ none
unfolding find_existing_k3s_cluster_member state_tag get_tag to_string choose_initial_state load
    tag_in_cluster in_cluster is_member_alive_or_failed is_alive of_string
existing-observed grace settle [] = refl
existing-observed grace settle (c ∷ cs) = existing-observed grace settle cs
