-- ===== src/Cluster/Rounds.antt =====
-- antsd/internal/cluster/rescale.go: the ends of a coordination round, the conversion order on the
-- machine that it designates, and the end of that conversion.
use zero_config_ha_cluster.Common.{
  ◌+◌, not, List, [], ◌∷◌, Option, none, some, String, str_eq, if◌then◌else◌,
}
use zero_config_ha_cluster.Node.State.{
  is_state, rescale_promoting, rescale_demoting, rescale_failed, stable_server,
}
use zero_config_ha_cluster.Node.Role.{
  is_server, other, stable_state, role_of_string, role_to_string,
}
use zero_config_ha_cluster.Cluster.Failures.{delete}
use zero_config_ha_cluster.Cluster.Manager.{
  Manager, Env, Payload, empty, malformed, object, remove_failed_node, rescale_convert,
  RescaleOrder, no_order, convert, observe_cluster, transition, become_stable, start_k3s_operation,
  broadcast, panic, get_field,
}
use zero_config_ha_cluster.Cluster.Rescale.{
  stop_rescale_timer, schedule_rescale_check, maybe_rescale,
}
use zero_config_ha_cluster.Cluster.Forgetting.{finish_forgetting}

-- The loop of `finishEviction`: a member that Serf does not erase stays in the failure clock.
unfoldable pub erase_members : Env → List String → Manager → Manager
erase_members env [] m = m
erase_members env (name ∷ names) m = erase_members env names (record m {
  effects = remove_failed_node name ∷ m.effects;
  rescale = record (m.rescale) {
    failed_since =
        if env.removes m.effects name
        then delete name m.rescale.failed_since
        else m.rescale.failed_since;
  };
})

-- `finishEviction`.
unfoldable pub finish_eviction : Env → Manager → Manager
unfolding observe_cluster transition
finish_eviction env m =
    let m1 = erase_members env m.rescale.evicting m in
    let m2 =
      transition stable_server (record m1 { rescale = record (m1.rescale) { evicting = [] } }) in
    maybe_rescale env (observe_cluster env m2) m2

-- `abandonCoordination`.
unfoldable pub abandon_coordination : Env → Manager → Manager
unfolding transition schedule_rescale_check
abandon_coordination env m =
    let m1 = transition stable_server (record m {
      rescale = record (m.rescale) {
        order = no_order;
        evicting = [];
        cleaning = "";
        imbalance_since = 0;
      };
    }) in
    let now = env.now m1.effects in
    let m2 = record m1 {
      rescale = record (m1.rescale) { retry_not_before = now + m1.rescale_settle_delay };
    } in
    schedule_rescale_check m2.rescale.retry_not_before now m2

-- `json.Marshal` of a `rescaleOrder`, which does not fail on texts.
unfoldable pub order_payload : RescaleOrder → Payload
order_payload o =
    object (("target", o.target) ∷ ("role", role_to_string o.role) ∷ ("join_ip", o.join_ip) ∷ [])

-- `json.Unmarshal` into a `rescaleOrder`; `none` is the error.
unfoldable pub read_rescale_order : Payload → Option RescaleOrder
unfolding get_field
read_rescale_order empty = none
read_rescale_order malformed = none
read_rescale_order (object fields) = some (record {
  target = get_field "target" fields;
  role = role_of_string (get_field "role" fields);
  join_ip = get_field "join_ip" fields;
})

-- The part of `onRescaleCoordinationDone` that ends a conversion round.
unfoldable pub broadcast_order : Env → Manager → Manager
unfolding broadcast order_payload transition schedule_rescale_check
broadcast_order env m =
    let order = m.rescale.order in
    let m1 = record m { rescale = record (m.rescale) { order = no_order } } in
    let (m2, sent) = broadcast env rescale_convert (order_payload order) m1 in
    if not sent
    then abandon_coordination env m2
    else (let m3 = transition stable_server m2 in
        let now = env.now m3.effects in
        schedule_rescale_check (now + m3.rescale_settle_delay) now m3)

-- `onRescaleCoordinationDone`.
unfoldable pub on_rescale_coordination_done : Env → Manager → Manager
on_rescale_coordination_done env m =
    if not (str_eq m.rescale.cleaning "")
    then finish_forgetting env m
    else if str_eq m.rescale.order.target ""
    then finish_eviction env m
    else broadcast_order env m

-- `onRescaleConvert` behind its guards.
unfoldable pub start_convert : RescaleOrder → Manager → Manager
unfolding transition start_k3s_operation
start_convert order m =
    let m' = record m { rescale = record (m.rescale) { order = order } } in
    start_k3s_operation (convert order)
      (transition (if is_server order.role then rescale_promoting else rescale_demoting) m')

-- `onRescaleConvert`, once the payload is read.
unfoldable pub obey : RescaleOrder → Manager → Manager
obey order m =
    if not (str_eq order.target m.config.node_name)
    then m
    else if not (is_state m.state (stable_state (other order.role)))
    then m
    else elim m.persisted_state [
      | none ↦ m
      | some _ ↦ if str_eq order.join_ip "" then m else start_convert order m
    ]

-- `onRescaleConvert`.
unfoldable pub on_rescale_convert : Payload → Manager → Manager
unfolding read_rescale_order
on_rescale_convert payload m = elim (read_rescale_order payload) [
  | none ↦ m
  | some order ↦ obey order m
]

-- `onRescaleConverted`.
unfoldable pub on_rescale_converted : Env → Manager → Manager
unfolding become_stable panic
on_rescale_converted env m = elim m.persisted_state [
  | none ↦ panic m
  | some p ↦
      become_stable (record p { role = m.rescale.order.role; role_changed_at = env.now m.effects })
        (record m { rescale = record (m.rescale) { order = no_order } })
]

-- `failRescale`.
unfoldable pub fail_rescale : Manager → Manager
unfolding stop_rescale_timer transition
fail_rescale m =
    let m' = stop_rescale_timer m in
    transition rescale_failed (record m' { rescale = record (m'.rescale) { order = no_order } })
