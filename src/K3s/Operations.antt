-- ===== src/K3s/Operations.antt =====
-- What the goroutines of antsd/internal/cluster run: firstboot.go, rejoin.go, rescale.go and forget.go.
-- A deadline that passes is an error of the call that it cuts off.
use zero_config_ha_cluster.Common.{List, [], ◌∷◌, Option, none, some, String, if◌then◌else◌}
use zero_config_ha_cluster.Node.Role.{Role, is_server, role_eq}
use zero_config_ha_cluster.Cluster.Manager.{
  RescaleOrder, Operation, install_init, install_server, install_agent, check_not_installed,
  wait_rejoin, evict_nodes, prepare_conversion, erase_node, convert,
}
use zero_config_ha_cluster.K3s.{
  Error, not_installed, failure, RoleResult, installed, error, Installer, ControlPlane,
}

-- The switch of `ensureK3sIsNotInstalled`.
unfoldable pub refusal : RoleResult → Option Error
refusal (installed r) = some failure
refusal (error not_installed) = none
refusal (error failure) = some failure

-- `ensureK3sIsNotInstalled`.
unfoldable pub ensure_k3s_is_not_installed : {W : Type 0} → Installer W → W → W × Option Error
ensure_k3s_is_not_installed i w = let (w1, r) = i.installed_role w in (w1, refusal r)

-- The part of `installThenWaitReady` behind its guard.
unfoldable pub install_unguarded :
    {W : Type 0}
    → Installer W
    → (W → W × Option Error)
    → (W → W × Option Error)
    → W
    → W × Option Error
install_unguarded i install wait_ready w =
    let (w1, e) = install w in
    elim e [
      | none ↦ wait_ready w1
      | some x ↦
          let (w2, r) = i.installed_role w1 in
          elim r [ installed _ ↦ wait_ready w2 | error _ ↦ (w2, some x) ]
    ]

-- `installThenWaitReady`.
unfoldable pub install_then_wait_ready :
    {W : Type 0}
    → Installer W
    → (W → W × Option Error)
    → (W → W × Option Error)
    → W
    → W × Option Error
install_then_wait_ready i install wait_ready w =
    let (w1, e) = ensure_k3s_is_not_installed i w in
    elim e [ some x ↦ (w1, some x) | none ↦ install_unguarded i install wait_ready w1 ]

-- The comparison of `checkInstalledRole`, which `convertThenWaitReady` repeats.
unfoldable pub role_mismatch : Role → RoleResult → Option Error
role_mismatch want (installed r) = if role_eq r want then none else some failure
role_mismatch want (error e) = some e

-- `checkInstalledRole`.
unfoldable pub check_installed_role : {W : Type 0} → Installer W → Role → W → W × Option Error
check_installed_role i want w = let (w1, r) = i.installed_role w in (w1, role_mismatch want r)

-- The choice of `waitReady`.
unfoldable pub wait_ready_as : {W : Type 0} → Installer W → Role → W → W × Option Error
wait_ready_as i role w = if is_server role then i.wait_server_ready w else i.wait_agent_ready w

-- The operation of `startRejoin`.
unfoldable pub wait_rejoined : {W : Type 0} → Installer W → Role → W → W × Option Error
wait_rejoined i role w =
    let (w1, e) = check_installed_role i role w in
    elim e [ some x ↦ (w1, some x) | none ↦ wait_ready_as i role w1 ]

-- `convertThenWaitReady`.
unfoldable pub convert_then_wait_ready :
    {W : Type 0} → Installer W → RescaleOrder → W → W × Option Error
convert_then_wait_ready i order w =
    let (w1, e) = i.convert order.role order.join_ip w in
    elim e [ some x ↦ (w1, some x) | none ↦ wait_rejoined i order.role w1 ]

-- `checkQuorum`.
unfoldable pub check_quorum : {W : Type 0} → ControlPlane W → String → W → W × Option Error
check_quorum cp self w =
    let (w1, r) = cp.node_exists self w in (w1, elim r [ none ↦ some failure | some _ ↦ none ])

-- The operation of `startCoordinationRound`.
unfoldable pub coordinated :
    {W : Type 0} → ControlPlane W → String → (W → W × Option Error) → W → W × Option Error
coordinated cp self op w =
    let (w1, e) = check_quorum cp self w in elim e [ some x ↦ (w1, some x) | none ↦ op w1 ]

-- The operation of `startEviction`.
unfoldable pub delete_nodes : {W : Type 0} → ControlPlane W → List String → W → W × Option Error
delete_nodes cp [] w = (w, none)
delete_nodes cp (name ∷ names) w =
    let (w1, e) = cp.delete_node name w in
    let rest = delete_nodes cp names w1 in elim e [ some x ↦ (w1, some x) | none ↦ rest ]

-- The last check of `prepareConversion`.
unfoldable pub check_gone : {W : Type 0} → ControlPlane W → String → W → W × Option Error
check_gone cp name w =
    let (w1, r) = cp.node_exists name w in
    elim r [ none ↦ (w1, some failure) | some known ↦ (w1, if known then some failure else none) ]

-- `prepareConversion`: an error of the drain is only logged.
unfoldable pub drain_and_delete : {W : Type 0} → ControlPlane W → String → W → W × Option Error
drain_and_delete cp name w =
    let (w2, e) = cp.delete_node name (cp.drain_node name w).0 in
    elim e [ some x ↦ (w2, some x) | none ↦ check_gone cp name w2 ]

-- Each closure that is given to `startK3sOperation`.
unfoldable pub run_operation :
    {W : Type 0} → Installer W → ControlPlane W → String → Operation → W → W × Option Error
run_operation i cp self install_init w =
    install_then_wait_ready i i.install_server_init i.wait_server_ready w
run_operation i cp self (install_server ip) w =
    install_then_wait_ready i (i.install_server_join ip) i.wait_server_ready w
run_operation i cp self (install_agent ip) w =
    install_then_wait_ready i (i.install_agent ip) i.wait_agent_ready w
run_operation i cp self check_not_installed w = ensure_k3s_is_not_installed i w
run_operation i cp self (wait_rejoin role) w = wait_rejoined i role w
run_operation i cp self (evict_nodes names) w = coordinated cp self (delete_nodes cp names) w
run_operation i cp self (prepare_conversion name) w =
    coordinated cp self (drain_and_delete cp name) w
run_operation i cp self (erase_node name) w = coordinated cp self (cp.delete_node name) w
run_operation i cp self (convert order) w = convert_then_wait_ready i order w
