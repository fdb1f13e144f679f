-- ===== src/Cluster/Bootstrap.antt =====
-- antsd/internal/cluster/bootstrap.go: creating a new cluster on the user's request.
use zero_config_ha_cluster.Common.{
  ℕ, not, ◌||◌, List, none, some, String, ltb, ◌==◌, if◌then◌else◌, length,
}
use zero_config_ha_cluster.Node.State.{
  is_state, discovering, bootstrap_confirm, bootstrap_waiting, bootstrap_install_init,
  bootstrap_install_server, bootstrap_install_agent, bootstrap_failed,
}
use zero_config_ha_cluster.Node.Role.{
  server, agent, is_server, is_agent, rank, role_for_rank, desired_server_count,
}
use zero_config_ha_cluster.Cluster.View.{
  View, alive_member_names, find_k3s_join_target, find_existing_k3s_cluster_member,
  stable_server_count,
}
use zero_config_ha_cluster.Cluster.Manager.{
  Manager, Env, empty, bootstrap_requested, bootstrap_start, bootstrap_wait_expired, install_init,
  install_server, install_agent, observe_cluster, transition, become_stable, start_k3s_operation,
  broadcast,
}
use zero_config_ha_cluster.Cluster.Rejoin.{build_first_boot_state}

-- What a user action returns: no error, an error that wraps `ErrConflict`, or another error.
pub data ActionResult : Type 0 where
  accepted conflict failed : ActionResult

-- `bootstrapProgress.stopTimer`.
unfoldable pub stop_bootstrap_timer : Manager → Manager
stop_bootstrap_timer m = record m { bootstrap = record (m.bootstrap) { timer = none } }

-- `failBootstrap`.
unfoldable pub fail_bootstrap : Manager → Manager
unfolding stop_bootstrap_timer transition
fail_bootstrap m = transition bootstrap_failed (stop_bootstrap_timer m)

-- `onRequestBootstrap`.
unfoldable pub on_request_bootstrap : Env → Manager → Manager × ActionResult
unfolding observe_cluster transition
on_request_bootstrap env m =
    if not (is_state m.state discovering)
    then (m, conflict)
    else elim (find_existing_k3s_cluster_member (observe_cluster env m)) [
      | some _ ↦ (m, conflict)
      | none ↦ (transition bootstrap_confirm m, accepted)
    ]

-- `onCancelBootstrap`.
unfoldable pub on_cancel_bootstrap : Manager → Manager × ActionResult
unfolding transition
on_cancel_bootstrap m =
    if not (is_state m.state bootstrap_confirm)
    then (m, conflict)
    else (transition discovering m, accepted)

-- `onConfirmBootstrap`.
unfoldable pub on_confirm_bootstrap : Env → Manager → Manager × ActionResult
unfolding broadcast
on_confirm_bootstrap env m =
    if not (is_state m.state bootstrap_confirm)
    then (m, conflict)
    else (let (m', sent) = broadcast env bootstrap_requested empty m in
        (m', if sent then accepted else failed))

-- `onBootstrapRequested`.
unfoldable pub on_bootstrap_requested : Manager → Manager
unfolding transition
on_bootstrap_requested m =
    if is_state m.state discovering || is_state m.state bootstrap_confirm
    then (let m' = transition bootstrap_waiting m in
        record m' {
          bootstrap = record (m'.bootstrap) {
            timer =
                some (record { delay = m'.bootstrap_wait_delay; command = bootstrap_wait_expired });
          };
        })
    else m

-- `onBootstrapWaitExpired`.
unfoldable pub on_bootstrap_wait_expired : Env → Manager → Manager
unfolding broadcast fail_bootstrap
on_bootstrap_wait_expired env m =
    if not (is_state m.state bootstrap_waiting)
    then m
    else (let (m', sent) = broadcast env bootstrap_start empty m in
        if sent then m' else fail_bootstrap m')

-- `maybeInstallServer`.
unfoldable pub maybe_install_server : View → Manager → Manager
unfolding transition start_k3s_operation
maybe_install_server v m =
    if not (is_state m.state bootstrap_waiting) || not (is_server m.bootstrap.role)
    then m
    else if ltb (stable_server_count v) m.bootstrap.rank
    then m
    else (let (target, found) = find_k3s_join_target v in
        if not found
        then m
        else start_k3s_operation (install_server target.ip) (transition bootstrap_install_server m))

-- `maybeInstallAgent`.
unfoldable pub maybe_install_agent : View → Manager → Manager
unfolding transition start_k3s_operation
maybe_install_agent v m =
    if not (is_state m.state bootstrap_waiting) || not (is_agent m.bootstrap.role)
    then m
    else if ltb (stable_server_count v) (desired_server_count m.bootstrap.total_alive_members)
    then m
    else (let (target, found) = find_k3s_join_target v in
        if not found
        then m
        else start_k3s_operation (install_agent target.ip) (transition bootstrap_install_agent m))

-- The assignments of `onBootstrapStart` to the progress, for a rank among the alive members.
unfoldable pub assign_role : List String → ℕ → Manager → Manager
assign_role names r m = record m {
  bootstrap = record (m.bootstrap) {
    members = names;
    total_alive_members = length names;
    rank = r;
    role = role_for_rank r (length names);
  };
}

-- `onBootstrapStart` behind the computation of the rank.
unfoldable pub take_role : View → ℕ → Manager → Manager
unfolding assign_role fail_bootstrap transition start_k3s_operation maybe_install_server
    maybe_install_agent
take_role v r m =
    let m' = assign_role (alive_member_names v) r m in
    if r == 0
    then elim (find_existing_k3s_cluster_member v) [
      | some _ ↦ fail_bootstrap m'
      | none ↦ start_k3s_operation install_init (transition bootstrap_install_init m')
    ]
    else maybe_install_agent v (maybe_install_server v m')

-- `onBootstrapStart`.
unfoldable pub on_bootstrap_start : Env → Manager → Manager
unfolding stop_bootstrap_timer observe_cluster fail_bootstrap take_role
on_bootstrap_start env m =
    if not (is_state m.state bootstrap_waiting)
    then m
    else (let m' = stop_bootstrap_timer m in
        let v = observe_cluster env m' in
        elim (rank (alive_member_names v) m'.config.node_name) [
          | none ↦ fail_bootstrap m'
          | some r ↦ take_role v r m'
        ])

-- `onBootstrapInstallSucceeded`.
unfoldable pub on_bootstrap_install_succeeded : Env → Manager → Manager
unfolding build_first_boot_state become_stable
on_bootstrap_install_succeeded env m = elim m.state [
  | bootstrap_install_init ↦ become_stable (build_first_boot_state env server m) m
  | bootstrap_install_server ↦ become_stable (build_first_boot_state env server m) m
  | bootstrap_install_agent ↦ become_stable (build_first_boot_state env agent m) m
  | _ ↦ m
]
