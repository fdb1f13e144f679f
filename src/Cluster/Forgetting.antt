-- ===== src/Cluster/Forgetting.antt =====
-- antsd/internal/cluster/forget.go, the coordinator's side: erasing what K3s still knows under the
-- name of a machine on its first boot, and confirming that the name is free.
use zero_config_ha_cluster.Common.{Bool, false, not, ◌∷◌, none, some, String, if◌then◌else◌}
use zero_config_ha_cluster.Node.State.{is_state, stable_server}
use zero_config_ha_cluster.Cluster.View.{
  View, is_rescale_coordinator, is_virgin_member, is_etcd_membership_changing,
}
use zero_config_ha_cluster.Cluster.Manager.{
  Manager, Env, Payload, forgotten, probe_node, erase_node, observe_cluster, transition, broadcast,
}
use zero_config_ha_cluster.Cluster.Joining.{forget_payload, read_forget_order}
use zero_config_ha_cluster.Cluster.Rescale.{reset_progress, start_coordination_round, maybe_rescale}

-- `canForget`.
unfoldable pub can_forget : View → String → Manager → Bool
can_forget v name m =
    if not (is_state m.state stable_server)
    then false
    else if not (is_rescale_coordinator v m.config.node_name)
    then false
    else is_virgin_member v name

-- `onForgetMe`: the lookup runs in a goroutine of its own, and answers with `cmdForgetProbed`.
unfoldable pub on_forget_me : Env → Payload → Manager → Manager
unfolding observe_cluster
on_forget_me env payload m = elim (read_forget_order payload) [
  | none ↦ m
  | some name ↦
      if can_forget (observe_cluster env m) name m
      then record m { effects = probe_node name ∷ m.effects }
      else m
]

-- `confirmForgotten`: a failure to send is only logged.
unfoldable pub confirm_forgotten : Env → String → Manager → Manager
unfolding broadcast
confirm_forgotten env name m =
    let (m', sent) = broadcast env forgotten (forget_payload name) m in m'

-- `onForgetProbed`.
unfoldable pub on_forget_probed : Env → String → Bool → Manager → Manager
unfolding observe_cluster confirm_forgotten reset_progress start_coordination_round
on_forget_probed env name found m =
    let v = observe_cluster env m in
    if not (can_forget v name m)
    then m
    else if not found
    then confirm_forgotten env name m
    else if is_etcd_membership_changing v
    then m
    else (let m' = reset_progress m in
        start_coordination_round (erase_node name)
          (record m' { rescale = record (m'.rescale) { cleaning = name } }))

-- `finishForgetting`.
unfoldable pub finish_forgetting : Env → Manager → Manager
unfolding transition confirm_forgotten observe_cluster
finish_forgetting env m =
    let name = m.rescale.cleaning in
    let m' =
      confirm_forgotten env name
        (transition stable_server (record m { rescale = record (m.rescale) { cleaning = "" } })) in
    maybe_rescale env (observe_cluster env m') m'
