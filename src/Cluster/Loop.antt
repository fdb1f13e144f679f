-- ===== src/Cluster/Loop.antt =====
-- antsd/internal/cluster/manager.go: the dispatch of the run loop, for commands, for the results of
-- the K3s operations and for the Serf events.
use zero_config_ha_cluster.Common.{Bool, String}
use zero_config_ha_cluster.Node.State.{
  bootstrap_install_init, bootstrap_install_server, bootstrap_install_agent, joining_cleanup,
  joining_agent, rejoin_cluster, rescale_coordinating, rescale_promoting, rescale_demoting,
}
use zero_config_ha_cluster.Cluster.Manager.{
  Manager, Env, Payload, EventName, bootstrap_requested, bootstrap_start, rescale_convert,
  forget_me, forgotten, unknown_event, observe_cluster,
}
use zero_config_ha_cluster.Cluster.Rejoin.{on_rejoin_ready, fail_rejoin}
use zero_config_ha_cluster.Cluster.Joining.{
  fail_joining, maybe_start_joining_path, maybe_join_cluster, on_join_wait_expired,
  on_joining_install_succeeded, on_joining_cleanup_checked, on_forget_retry, on_forgotten,
}
use zero_config_ha_cluster.Cluster.Bootstrap.{
  fail_bootstrap, on_request_bootstrap, on_confirm_bootstrap, on_cancel_bootstrap,
  on_bootstrap_requested, on_bootstrap_wait_expired, on_bootstrap_start, maybe_install_server,
  maybe_install_agent, on_bootstrap_install_succeeded,
}
use zero_config_ha_cluster.Cluster.Rescale.{maybe_rescale}
use zero_config_ha_cluster.Cluster.Forgetting.{on_forget_me, on_forget_probed}
use zero_config_ha_cluster.Cluster.Rounds.{
  on_rescale_coordination_done, abandon_coordination, on_rescale_convert, on_rescale_converted,
  fail_rescale,
}

-- `onK3sOperationSucceeded`: the state tells which workflow started the operation.
unfoldable pub on_k3s_operation_succeeded : Env → Manager → Manager
on_k3s_operation_succeeded env m = elim m.state [
  | bootstrap_install_init ↦ on_bootstrap_install_succeeded env m
  | bootstrap_install_server ↦ on_bootstrap_install_succeeded env m
  | bootstrap_install_agent ↦ on_bootstrap_install_succeeded env m
  | joining_cleanup ↦ on_joining_cleanup_checked env m
  | joining_agent ↦ on_joining_install_succeeded env m
  | rejoin_cluster ↦ on_rejoin_ready m
  | rescale_coordinating ↦ on_rescale_coordination_done env m
  | rescale_promoting ↦ on_rescale_converted env m
  | rescale_demoting ↦ on_rescale_converted env m
  | _ ↦ m
]

-- `onK3sOperationFailed`; the error is only logged.
unfoldable pub on_k3s_operation_failed : Env → Manager → Manager
on_k3s_operation_failed env m = elim m.state [
  | bootstrap_install_init ↦ fail_bootstrap m
  | bootstrap_install_server ↦ fail_bootstrap m
  | bootstrap_install_agent ↦ fail_bootstrap m
  | joining_cleanup ↦ fail_joining m
  | joining_agent ↦ fail_joining m
  | rejoin_cluster ↦ fail_rejoin m
  | rescale_coordinating ↦ abandon_coordination env m
  | rescale_promoting ↦ fail_rescale m
  | rescale_demoting ↦ fail_rescale m
  | _ ↦ m
]

-- The default branch of `handleSerfEvent`: a membership or tag change.
unfoldable pub on_membership_change : Env → Manager → Manager
unfolding observe_cluster
on_membership_change env m =
    let v = observe_cluster env m in
    let m1 = maybe_start_joining_path v m in
    let m2 = maybe_join_cluster v m1 in
    let m3 = maybe_install_server v m2 in
    let m4 = maybe_install_agent v m3 in maybe_rescale env v m4

-- `handleUserEvent`.
unfoldable pub handle_user_event : Env → EventName → Payload → Manager → Manager
handle_user_event env bootstrap_requested p m = on_bootstrap_requested m
handle_user_event env bootstrap_start p m = on_bootstrap_start env m
handle_user_event env rescale_convert p m = on_rescale_convert p m
handle_user_event env forget_me p m = on_forget_me env p m
handle_user_event env forgotten p m = on_forgotten env p m
handle_user_event env (unknown_event _) p m = m

-- What the run loop takes from its two channels: a Serf event, a user action with its reply, the
-- expiry of a timer, or the answer to a lookup. Results of operations are taken apart.
pub data Input : Type 0 where
  membership_change : Input
  user_event : EventName → Payload → Input
  request_bootstrap confirm_bootstrap cancel_bootstrap : Input
  bootstrap_wait_expired join_wait_expired forget_retry rescale_check : Input
  forget_probed : String → Bool → Input

-- `handleSerfEvent` and the branches of `handleCommand` but the two for operations. The reply of a
-- user action is the second part of its handler's result.
unfoldable pub handle : Env → Input → Manager → Manager
unfolding observe_cluster
handle env membership_change m = on_membership_change env m
handle env (user_event name payload) m = handle_user_event env name payload m
handle env request_bootstrap m = (on_request_bootstrap env m).0
handle env confirm_bootstrap m = (on_confirm_bootstrap env m).0
handle env cancel_bootstrap m = (on_cancel_bootstrap m).0
handle env bootstrap_wait_expired m = on_bootstrap_wait_expired env m
handle env join_wait_expired m = on_join_wait_expired env m
handle env forget_retry m = on_forget_retry env m
handle env (forget_probed name found) m = on_forget_probed env name found m
handle env rescale_check m = maybe_rescale env (observe_cluster env m) m
