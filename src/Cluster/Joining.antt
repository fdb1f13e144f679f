-- ===== src/Cluster/Joining.antt =====
-- antsd/internal/cluster/joining.go, and the joiner's side of forget.go: a virgin machine beside a
-- running cluster joins it as an agent, after the cluster has forgotten its name.
use zero_config_ha_cluster.Common.{
  ◌+◌, Bool, true, not, ◌||◌, [], ◌∷◌, Option, none, some, String, str_eq, if◌then◌else◌, contains,
}
use zero_config_ha_cluster.Node.State.{
  is_state, discovering, bootstrap_confirm, bootstrap_waiting, joining_waiting, joining_cleanup,
  joining_agent, joining_failed,
}
use zero_config_ha_cluster.Node.Role.{agent}
use zero_config_ha_cluster.Cluster.View.{View, find_k3s_join_target}
use zero_config_ha_cluster.Cluster.Manager.{
  Manager, Env, Payload, empty, malformed, object, forget_me, join_wait_expired, forget_retry,
  check_not_installed, install_agent, no_bootstrap, observe_cluster, transition, become_stable,
  start_k3s_operation, broadcast, get_field,
}
use zero_config_ha_cluster.Cluster.Rejoin.{build_first_boot_state}

-- `joiningProgress.stopTimer`.
unfoldable pub stop_joining_timer : Manager → Manager
stop_joining_timer m = record m { joining = record (m.joining) { timer = none } }

-- `bootstrapProgress.isCohortMember`.
unfoldable pub is_cohort_member : Manager → String → Bool
is_cohort_member m name = contains m.bootstrap.members name

-- `failJoining`.
unfoldable pub fail_joining : Manager → Manager
unfolding stop_joining_timer transition
fail_joining m = transition joining_failed (stop_joining_timer m)

-- The part of `maybeStartJoiningPath` behind its guards; `bootstrap.reset` is the assignment.
divert : Manager → Manager
unfolding transition
divert m =
    let m' = transition joining_waiting (record m { bootstrap = no_bootstrap }) in
    record m' {
      joining = record (m'.joining) {
        timer = some (record { delay = m'.join_wait_delay; command = join_wait_expired });
      };
    }

-- `maybeStartJoiningPath`.
unfoldable pub maybe_start_joining_path : View → Manager → Manager
unfolding divert is_cohort_member
maybe_start_joining_path v m =
    if is_state m.state discovering
      || is_state m.state bootstrap_confirm
      || is_state m.state bootstrap_waiting
    then (let (target, found) = find_k3s_join_target v in
        if not found || is_cohort_member m target.name then m else divert m)
    else m

-- `startForgetMe`.
unfoldable pub start_forget_me : Manager → Manager
unfolding transition start_k3s_operation
start_forget_me m = start_k3s_operation check_not_installed (transition joining_cleanup m)

-- `joinAsAgent`.
unfoldable pub join_as_agent : String → Manager → Manager
unfolding transition start_k3s_operation
join_as_agent server_ip m =
    start_k3s_operation (install_agent server_ip) (transition joining_agent m)

-- `maybeJoinCluster`.
unfoldable pub maybe_join_cluster : View → Manager → Manager
unfolding start_forget_me join_as_agent
maybe_join_cluster v m =
    if not (is_state m.state joining_waiting) || not m.joining.settled
    then m
    else (let (target, found) = find_k3s_join_target v in
        if not found
        then m
        else if not m.joining.cleaned
        then start_forget_me m
        else join_as_agent target.ip m)

-- `onJoinWaitExpired`.
unfoldable pub on_join_wait_expired : Env → Manager → Manager
unfolding observe_cluster maybe_join_cluster
on_join_wait_expired env m =
    if not (is_state m.state joining_waiting)
    then m
    else (let m' = record m { joining = record (m.joining) { settled = true; timer = none } } in
        maybe_join_cluster (observe_cluster env m') m')

-- `onJoiningInstallSucceeded`.
unfoldable pub on_joining_install_succeeded : Env → Manager → Manager
unfolding build_first_boot_state become_stable
on_joining_install_succeeded env m =
    if is_state m.state joining_agent
    then become_stable (build_first_boot_state env agent m) m
    else m

-- `json.Marshal(forgetOrder{Name: name})`, which does not fail on a text.
unfoldable pub forget_payload : String → Payload
forget_payload name = object (("name", name) ∷ [])

-- `json.Unmarshal` into a `forgetOrder`; `none` is the error.
unfoldable pub read_forget_order : Payload → Option String
unfolding get_field
read_forget_order empty = none
read_forget_order malformed = none
read_forget_order (object fields) = some (get_field "name" fields)

-- `sendForgetMe`: a failure to send is only logged.
unfoldable pub send_forget_me : Env → Manager → Manager
unfolding forget_payload broadcast
send_forget_me env m =
    let m1 = record m {
      joining = record (m.joining) { forget_attempts = m.joining.forget_attempts + 1 };
    } in
    let (m2, sent) = broadcast env forget_me (forget_payload m1.config.node_name) m1 in
    record m2 {
      joining = record (m2.joining) {
        timer = some (record { delay = m2.forget_retry_interval; command = forget_retry });
      };
    }

-- `onJoiningCleanupChecked`.
unfoldable pub on_joining_cleanup_checked : Env → Manager → Manager
unfolding send_forget_me
on_joining_cleanup_checked env m =
    send_forget_me env (record m { joining = record (m.joining) { forget_attempts = 0 } })

-- `onForgetRetry`.
unfoldable pub on_forget_retry : Env → Manager → Manager
unfolding send_forget_me
on_forget_retry env m = if not (is_state m.state joining_cleanup) then m else send_forget_me env m

-- `onForgotten`, once the payload is read.
unfoldable pub resume_join : Env → String → Manager → Manager
unfolding transition observe_cluster
resume_join env name m =
    if not (str_eq name m.config.node_name) || not (is_state m.state joining_cleanup)
    then m
    else (let m' =
          transition joining_waiting
            (record m { joining = record (m.joining) { timer = none; cleaned = true } }) in
        maybe_join_cluster (observe_cluster env m') m')

-- `onForgotten`.
unfoldable pub on_forgotten : Env → Payload → Manager → Manager
unfolding read_forget_order
on_forgotten env payload m = elim (read_forget_order payload) [
  | none ↦ m
  | some name ↦ resume_join env name m
]
