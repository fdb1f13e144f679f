-- ===== src/Cluster/Rejoin.antt =====
-- antsd/internal/cluster/rejoin.go and firstboot.go: coming back after a reboot, and the state that
-- the end of a first boot persists.
use zero_config_ha_cluster.Common.{
  ◌+◌, ◌==◌, zero, suc, ℤ, pos, negsuc, none, some, str_eq, if◌then◌else◌,
}
use zero_config_ha_cluster.Node.State.{discovering, rejoin_cluster, rejoin_failed}
use zero_config_ha_cluster.Node.Role.{Role}
use zero_config_ha_cluster.Node.Persist.{
  PersistedState, StateFile, LoadResult, not_exist, invalid, loaded, load,
}
use zero_config_ha_cluster.Cluster.Manager.{
  Manager, Env, wait_rejoin, transition, become_stable, start_k3s_operation, panic,
}

-- `failRejoin`.
unfoldable pub fail_rejoin : Manager → Manager
unfolding transition
fail_rejoin m = transition rejoin_failed m

-- `startRejoin`, from the state that `*m.persistedState` holds.
unfoldable pub start_rejoin : PersistedState → Manager → Manager
unfolding fail_rejoin transition start_k3s_operation
start_rejoin persisted m =
    if str_eq persisted.node_name m.config.node_name
    then start_k3s_operation (wait_rejoin persisted.role) (transition rejoin_cluster m)
    else fail_rejoin m

-- `chooseInitialState`, from what `node.Load` returned.
choose_by : LoadResult → Manager → Manager
unfolding start_rejoin transition
choose_by not_exist m = transition discovering m
choose_by invalid m = transition rejoin_failed m
choose_by (loaded p) m = start_rejoin p (record m { persisted_state = some p })

unfoldable pub choose_initial_state : StateFile → Manager → Manager
unfolding choose_by
choose_initial_state file m = choose_by (load file) m

-- `BootCount++` on 64 bits, where the largest number is followed by the smallest one.
unfoldable pub increment : ℤ → ℤ
increment (pos n) =
    if n == 9_223_372_036_854_775_807 then negsuc 9_223_372_036_854_775_807 else pos (n + 1)
increment (negsuc zero) = pos 0
increment (negsuc (suc n)) = negsuc n

-- `onRejoinReady`.
unfoldable pub on_rejoin_ready : Manager → Manager
unfolding increment become_stable panic
on_rejoin_ready m = elim m.persisted_state [
  | none ↦ panic m
  | some p ↦ become_stable (record p { boot_count = increment p.boot_count }) m
]

-- `buildFirstBootState`.
unfoldable pub build_first_boot_state : Env → Role → Manager → PersistedState
build_first_boot_state env role m = record {
  node_name = m.config.node_name;
  role = role;
  boot_count = pos 1;
  first_boot_completed_at = env.now m.effects;
  role_changed_at = 0;
}
