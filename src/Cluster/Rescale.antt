-- ===== src/Cluster/Rescale.antt =====
-- antsd/internal/cluster/rescale.go: keeping the control plane at its size. Here is the detection
-- half, on the coordinator; `Rounds` has the handling of the order and of the results.
use zero_config_ha_cluster.Common.{
  ℕ, ◌+◌, ◌-◌, Bool, false, not, List, [], ◌∷◌, Option, none, some, String, str_eq, ltb, leb, ◌==◌,
  if◌then◌else◌,
}
use zero_config_ha_cluster.Node.State.{is_state, rescale_coordinating, stable_server}
use zero_config_ha_cluster.Node.Role.{Role, server, agent}
use zero_config_ha_cluster.Cluster.View.{
  View, Member, k3s_server_count, view_desired_server_count, needs_another_k3s_server,
  has_too_many_k3s_servers, find_promotion_target, find_demotion_target, is_rescale_coordinator,
  is_etcd_membership_changing,
}
use zero_config_ha_cluster.Cluster.Failures.{durably_failed_members_names, track_failures, earliest}
use zero_config_ha_cluster.Cluster.Manager.{
  Manager, Env, Operation, no_order, rescale_check, evict_nodes, prepare_conversion, transition,
  start_k3s_operation,
}

-- `rescaleProgress.stopTimer`.
unfoldable pub stop_rescale_timer : Manager → Manager
stop_rescale_timer m = record m { rescale = record (m.rescale) { timer = none } }

-- `rescaleProgress.armTimer`, as `scheduleRescaleCheck` calls it. A delay below 0 becomes 0.
unfoldable pub schedule_rescale_check : ℕ → ℕ → Manager → Manager
schedule_rescale_check deadline now m = record m {
  rescale = record (m.rescale) {
    timer =
        if deadline == 0
        then none
        else some (record { delay = deadline - now; command = rescale_check });
  };
}

-- `rescaleProgress.forget`.
unfoldable pub forget : Manager → Manager
forget m = record m {
  rescale = record (m.rescale) {
    timer = none;
    imbalance_since = 0;
    retry_not_before = 0;
    order = no_order;
    evicting = [];
    cleaning = "";
  };
}

-- `rescaleProgress.resetProgress`.
unfoldable pub reset_progress : Manager → Manager
reset_progress m = record m {
  rescale = record (m.rescale) { timer = none; order = no_order; evicting = []; cleaning = "" };
}

-- `startCoordinationRound`; `checkQuorum` is the first part of the operation.
unfoldable pub start_coordination_round : Operation → Manager → Manager
unfolding transition start_k3s_operation
start_coordination_round op m = start_k3s_operation op (transition rescale_coordinating m)

-- `startEviction`.
unfoldable pub start_eviction : List String → Manager → Manager
unfolding reset_progress start_coordination_round
start_eviction names m =
    let m' = reset_progress m in
    start_coordination_round (evict_nodes names)
      (record m' { rescale = record (m'.rescale) { evicting = names } })

-- `chooseConversionTarget`.
unfoldable pub choose_conversion_target : View → String → Option (Member × Role)
choose_conversion_target v self =
    if needs_another_k3s_server v
    then (let (target, found) = find_promotion_target v in
        if found then some (target, server) else none)
    else if has_too_many_k3s_servers v
    then (let (target, found) = find_demotion_target v in
        if not found then none else if str_eq target.name self then none else some (target, agent))
    else none

-- The part of `startConversion` behind the choice.
unfoldable pub order_conversion : Env → Member → Role → Manager → Manager
unfolding reset_progress start_coordination_round
order_conversion env target role m =
    let m' = reset_progress m in
    start_coordination_round (prepare_conversion target.name) (record m' {
      rescale = record (m'.rescale) {
        imbalance_since = 0;
        order = record { target = target.name; role = role; join_ip = env.local_ip };
      };
    })

-- `startConversion`: `none` where it reports that nothing was started.
unfoldable pub start_conversion : Env → View → Manager → Option Manager
start_conversion env v m = elim (choose_conversion_target v m.config.node_name) [
  | none ↦ none
  | some (target, role) ↦ some (order_conversion env target role m)
]

-- `trackImbalance`: the new state, whether the control plane has been off long enough, and when it
-- will have been.
unfoldable pub track_imbalance : View → ℕ → Manager → Manager × Bool × ℕ
track_imbalance v now m =
    if k3s_server_count v == view_desired_server_count v
    then (record m { rescale = record (m.rescale) { imbalance_since = 0 } }, false, 0)
    else (let since = if m.rescale.imbalance_since == 0 then now else m.rescale.imbalance_since in
        let deadline = since + m.rescale_settle_delay in
        (
          record m { rescale = record (m.rescale) { imbalance_since = since } },
          leb deadline now,
          deadline,
        ))

-- The end of `maybeRescale`, from the call of `trackImbalance` on.
unfoldable pub check_balance : Env → View → ℕ → ℕ → Manager → Manager
check_balance env v now next_eviction m =
    let (m', settled, deadline) = track_imbalance v now m in
    if settled
    then elim (start_conversion env v m') [
      | some started ↦ started
      | none ↦
          schedule_rescale_check (earliest next_eviction (now + m'.rescale_settle_delay)) now m'
    ]
    else schedule_rescale_check (earliest next_eviction deadline) now m'

-- The part of `maybeRescale` that only the free coordinator reaches.
unfoldable pub evaluate : Env → View → ℕ → Manager → Manager
evaluate env v now m =
    let (evictable, next) =
      durably_failed_members_names v m.rescale.failed_since m.eviction_grace now in
    elim evictable [
      | [] ↦ check_balance env v now next m
      | name ∷ names ↦ start_eviction (name ∷ names) m
    ]

-- The call of `trackFailures` in `maybeRescale`.
unfoldable pub observe_failures : View → ℕ → Manager → Manager
observe_failures v now m = record m {
  rescale = record (m.rescale) { failed_since = track_failures v now m.rescale.failed_since };
}

-- `maybeRescale`.
unfoldable pub maybe_rescale : Env → View → Manager → Manager
maybe_rescale env v m =
    if not m.config.rescale_enabled
    then m
    else (let now = env.now m.effects in
        let m' = observe_failures v now m in
        if not (is_state m'.state stable_server)
        then m'
        else if not (is_rescale_coordinator v m'.config.node_name)
        then forget m'
        else if ltb now m'.rescale.retry_not_before
        then m'
        else if is_etcd_membership_changing v
        then stop_rescale_timer m'
        else evaluate env v now m')
