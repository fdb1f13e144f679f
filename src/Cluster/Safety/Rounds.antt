-- ===== src/Cluster/Safety/Rounds.antt =====
-- When a coordination round starts, and what it may do (antsd/internal/cluster/rescale.go).
use zero_config_ha_cluster.Common.{
  ℕ, ◌+◌, ◌≤◌, ◌<◌, ◌≡◌, refl, ◌≢◌, ◌⊎◌, true, false, List, ◌∷◌, some, String, contains, ne-cons,
  arith, eq_iff,
}
use zero_config_ha_cluster.Node.State.{rescale_coordinating, stable_server}
use zero_config_ha_cluster.Node.Role.{Role, server, agent}
use zero_config_ha_cluster.Cluster.View.{
  View, Member, is_rescale_coordinator, is_etcd_membership_changing, failed_members_names,
  k3s_server_count, view_desired_server_count, needs_another_k3s_server, has_too_many_k3s_servers,
  find_promotion_target, find_demotion_target,
}
use zero_config_ha_cluster.Cluster.Failures.{
  lookup, since_or, durably_failed_members_names, track_failures,
}
use zero_config_ha_cluster.Cluster.Failures.Laws.{evictable_lem, track_failures_lem}
use zero_config_ha_cluster.Cluster.Manager.{Manager, Env, evict_nodes, set_state}
use zero_config_ha_cluster.Cluster.Rescale.{
  start_eviction, order_conversion, choose_conversion_target, start_conversion, track_imbalance,
  schedule_rescale_check, check_balance, evaluate, observe_failures, forget, stop_rescale_timer,
  maybe_rescale,
}
use zero_config_ha_cluster.Cluster.Rounds.{abandon_coordination}

since_or-some : (t now : ℕ) → since_or (some t) now ≡ t
unfolding since_or
since_or-some t now = refl

-- A node that `maybeRescale` makes enter a coordination round, for an eviction or a conversion, from
-- another state is an alive stable server that holds the coordinator's turn, with the workflow on,
-- past its pause after an abandoned round, and sees no other member changing the etcd membership.
-- (The rounds of the forget-me protocol start elsewhere, and heed neither the switch nor the pause.)
pub round_starts_only_when_free :
    (env : Env) (v : View) (m : Manager)
    → m.state ≢ rescale_coordinating
    → (maybe_rescale env v m).state ≡ rescale_coordinating
    → (m.config.rescale_enabled ≡ true)
      × (m.state ≡ stable_server)
      × (is_rescale_coordinator v m.config.node_name ≡ true)
      × (m.rescale.retry_not_before ≤ env.now m.effects)
      × (is_etcd_membership_changing v ≡ false)
unfolding maybe_rescale observe_failures forget stop_rescale_timer
round_starts_only_when_free env v m n e = ground arith

check_balance_evicts_not :
    (env : Env) (v : View) (now next : ℕ) (m : Manager) (names : List String)
    → (check_balance env v now next m).operations ≢ evict_nodes names ∷ m.operations
unfolding check_balance start_conversion order_conversion track_imbalance schedule_rescale_check
check_balance_evicts_not env v now next m names e =
    ground (arith, ne-cons (evict_nodes names) m.operations)

evaluate_evicts :
    (env : Env) (v : View) (now : ℕ) (m : Manager) (names : List String)
    → (evaluate env v now m).operations ≡ evict_nodes names ∷ m.operations
    → (durably_failed_members_names v m.rescale.failed_since m.eviction_grace now).0 ≡ names
unfolding evaluate start_eviction
evaluate_evicts env v now m names e = ground (
  arith,
  check_balance_evicts_not env v now
      (durably_failed_members_names v m.rescale.failed_since m.eviction_grace now).1 m names,
)

maybe_rescale_evicts :
    (env : Env) (v : View) (m : Manager) (names : List String)
    → let now = env.now m.effects in
      (maybe_rescale env v m).operations ≡ evict_nodes names ∷ m.operations
      → (durably_failed_members_names v
          (track_failures v now m.rescale.failed_since)
          m.eviction_grace
          now).0
        ≡ names
unfolding maybe_rescale observe_failures forget stop_rescale_timer
maybe_rescale_evicts env v m names e = ground (
  arith,
  ne-cons (evict_nodes names) m.operations,
  evaluate_evicts env v (env.now m.effects) (observe_failures v (env.now m.effects) m) names,
)

-- A machine that a round evicts is reported failed by the present view, and since a time that lies
-- the eviction grace or more back: the one that the failure clock held for it, or now.
pub evicts_only_durably_failed :
    (env : Env) (v : View) (m : Manager) (names : List String) (a : String)
    → (maybe_rescale env v m).operations ≡ evict_nodes names ∷ m.operations
    → contains names a ≡ true
    → (contains (failed_members_names v) a ≡ true)
      × (since_or (lookup a m.rescale.failed_since) (env.now m.effects) + m.eviction_grace
          ≤ env.now m.effects)
evicts_only_durably_failed env v m names a e h =
    let now = env.now m.effects in
    let clock = track_failures v now m.rescale.failed_since in
    ground (
      arith,
      maybe_rescale_evicts env v m names e,
      evictable_lem v clock m.eviction_grace now a,
      track_failures_lem v now m.rescale.failed_since a,
      since_or-some (since_or (lookup a m.rescale.failed_since) now) now,
    )

-- After an abandoned round, an evaluation before the end of the settle delay starts no round: the
-- node stays a stable server with the same operations.
pub abandoned_round_pauses :
    (env env' : Env) (v : View) (m : Manager)
    → env'.now (abandon_coordination env m).effects
      < env.now (set_state stable_server ∷ m.effects) + m.rescale_settle_delay
    → ((maybe_rescale env' v (abandon_coordination env m)).state ≡ stable_server)
      × ((maybe_rescale env' v (abandon_coordination env m)).operations ≡ m.operations)
unfolding abandon_coordination maybe_rescale observe_failures forget stop_rescale_timer
abandoned_round_pauses env env' v m h = ground arith

-- The coordinator never designates itself for a demotion, and designates a machine to promote only
-- while servers are missing and to demote only while there are too many.
pub conversion_target_cases :
    (v : View) (self : String) (target : Member) (role : Role)
    → choose_conversion_target v self ≡ some (target, role)
    → ((role ≡ server)
        × (k3s_server_count v < view_desired_server_count v)
        × (find_promotion_target v ≡ (target, true)))
      ⊎ ((role ≡ agent)
          × (view_desired_server_count v < k3s_server_count v)
          × (find_demotion_target v ≡ (target, true))
          × (target.name ≢ self))
unfolding choose_conversion_target needs_another_k3s_server has_too_many_k3s_servers
conversion_target_cases v self target role h = ground (arith, eq_iff target.name self)
