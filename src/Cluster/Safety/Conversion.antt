-- ===== src/Cluster/Safety/Conversion.antt =====
-- What a conversion that antsd/internal/cluster/rescale.go orders does to the counts of
-- antsd/internal/cluster/view.go, once the designated machine publishes the state of the conversion.
use zero_config_ha_cluster.Common.{
  ℕ, ◌+◌, ◌-◌, ◌<◌, ◌≡◌, refl, ap, subst, ◌⊎◌, inl, inr, Bool, true, some, String, In, eq_iff,
  arith, if◌then◌else◌, ltb,
}
use zero_config_ha_cluster.Node.State.{
  State, stable_server, stable_agent, rescale_promoting, rescale_demoting, to_string,
}
use zero_config_ha_cluster.Node.Role.{Role, server, agent}
use zero_config_ha_cluster.Node.Tag.{of_string-to_string}
use zero_config_ha_cluster.Cluster.View.{
  Member, View, state_tag, is_alive, is_failed, is_member_alive_or_failed, is_alive_in, tag_is,
  is_node_a_k3s_server, holds_server_slot, k3s_server_count, population, view_desired_server_count,
  needs_another_k3s_server, has_too_many_k3s_servers, find_promotion_target, find_demotion_target,
}
use zero_config_ha_cluster.Cluster.View.Selection.{
  IsNamed, lowest_named_alive_member_in-Answers, highest_named_alive_member_in-Answers,
}
use zero_config_ha_cluster.Cluster.View.Counts.{IsUnique, count_if-publish}
use zero_config_ha_cluster.Cluster.Rescale.{choose_conversion_target}
use zero_config_ha_cluster.Serfnode.{retag, publish, state_tag-retag}

-- The state that the designated machine publishes when it obeys an order for a role.
abbrev pub converting : Role → State
converting server = rescale_promoting
converting _ = rescale_demoting

tag_is-retag : (p : State → Bool) (s : State) (m : Member) → tag_is p (state_tag (retag s m)) ≡ p s
unfolding tag_is
tag_is-retag p s m = ground (arith, state_tag-retag s m, of_string-to_string s)

population-retag :
    (s : State) (m : Member) → is_member_alive_or_failed (retag s m) ≡ is_member_alive_or_failed m
unfolding retag is_member_alive_or_failed is_alive is_failed
population-retag s m = refl

population-publish :
    (v : View) (m : Member) (s : State)
    → IsUnique v
    → In m v
    → population (publish m.name s v) ≡ population v
unfolding population
population-publish v m s u i =
    ground (arith, count_if-publish is_member_alive_or_failed v m s u i, population-retag s m)

slot-alive :
    (s : State) (m : Member)
    → is_alive_in s m ≡ true
    → (holds_server_slot m ≡ is_node_a_k3s_server s) × (is_member_alive_or_failed m ≡ true)
unfolding is_alive_in holds_server_slot is_member_alive_or_failed tag_is
slot-alive s m h =
    let e : state_tag m ≡ to_string s = ground (arith, eq_iff (state_tag m) (to_string s)) in
    let a : is_alive m ≡ true = ground arith in
    ground (arith, e, a, of_string-to_string s, ap (tag_is is_node_a_k3s_server) e)

slot-retag :
    (s : State) (m : Member)
    → is_member_alive_or_failed m ≡ true
    → holds_server_slot (retag s m) ≡ is_node_a_k3s_server s
unfolding holds_server_slot
slot-retag s m h = ground (arith, tag_is-retag is_node_a_k3s_server s m, population-retag s m)

k3s_server_count-publish :
    (v : View) (m : Member) (s t : State)
    → IsUnique v
    → In m v
    → is_alive_in s m ≡ true
    → k3s_server_count (publish m.name t v) + (if is_node_a_k3s_server s then 1 else 0)
      ≡ k3s_server_count v + (if is_node_a_k3s_server t then 1 else 0)
unfolding k3s_server_count
k3s_server_count-publish v m s t u i a =
    ground (arith, count_if-publish holds_server_slot v m t u i, slot-alive s m a, slot-retag t m)

promotion_target :
    (v : View) (target : Member)
    → IsNamed v
    → find_promotion_target v ≡ (target, true)
    → In target v × (is_alive_in stable_agent target ≡ true)
unfolding find_promotion_target
promotion_target v target n h = elim (lowest_named_alive_member_in-Answers v stable_agent n) [
  | inl (f, p) ↦
      let e = ap (λ (r : Member × Bool). r.0) h in
      (subst (λ x. In x v) e p.member, subst (λ x. is_alive_in stable_agent x ≡ true) e p.candidate)
  | inr (f, a) ↦ absurd (ground arith)
]

demotion_target :
    (v : View) (target : Member)
    → IsNamed v
    → find_demotion_target v ≡ (target, true)
    → In target v × (is_alive_in stable_server target ≡ true)
unfolding find_demotion_target
demotion_target v target n h = elim (highest_named_alive_member_in-Answers v stable_server n) [
  | inl (f, p) ↦
      let e = ap (λ (r : Member × Bool). r.0) h in
      (
        subst (λ x. In x v) e p.member,
        subst (λ x. is_alive_in stable_server x ≡ true) e p.candidate,
      )
  | inr (f, a) ↦ absurd (ground arith)
]

choice :
    (v : View) (self : String) (target : Member) (role : Role)
    → choose_conversion_target v self ≡ some (target, role)
    → ((role ≡ server)
        × (k3s_server_count v < view_desired_server_count v)
        × (find_promotion_target v ≡ (target, true)))
      ⊎ ((role ≡ agent)
          × (view_desired_server_count v < k3s_server_count v)
          × (find_demotion_target v ≡ (target, true)))
unfolding choose_conversion_target needs_another_k3s_server has_too_many_k3s_servers
choice v self target role h = ground arith

-- How far a cluster of some servers is from the desired number.
abbrev pub distance : ℕ → ℕ → ℕ
distance servers desired = if ltb servers desired then desired - servers else servers - desired

-- Over members with unique, non-empty names, once the machine that the coordinator chose publishes
-- the state of its conversion, the desired number of servers is what it was, and the number of
-- servers is one step nearer to it.
pub conversion_approaches :
    (v : View) (self : String) (target : Member) (role : Role)
    → IsNamed v
    → IsUnique v
    → choose_conversion_target v self ≡ some (target, role)
    → let v' = publish target.name (converting role) v in
      (view_desired_server_count v' ≡ view_desired_server_count v)
      × (distance (k3s_server_count v') (view_desired_server_count v) + 1
          ≡ distance (k3s_server_count v) (view_desired_server_count v))
unfolding view_desired_server_count is_node_a_k3s_server
conversion_approaches v self target role n u h = elim (choice v self target role h) [
  | inl (r, lt, f) ↦
      let (i, a) = promotion_target v target n f in
      ground (
        arith,
        population-publish v target (converting role) u i,
        k3s_server_count-publish v target stable_agent (converting role) u i a,
      )
  | inr (r, lt, f) ↦
      let (i, a) = demotion_target v target n f in
      ground (
        arith,
        population-publish v target (converting role) u i,
        k3s_server_count-publish v target stable_server (converting role) u i a,
      )
]
