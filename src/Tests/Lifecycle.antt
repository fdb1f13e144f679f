-- ===== src/Tests/Lifecycle.antt =====
-- Runs of the loop of antsd/internal/cluster/manager.go to which the theorems on reachable states
-- apply.
use zero_config_ha_cluster.Common.{◌≡◌, refl, ap, true, false, [], ◌∷◌, some, here}
use zero_config_ha_cluster.Node.State.{rejoin_failed}
use zero_config_ha_cluster.Node.Role.{server, stable_state}
use zero_config_ha_cluster.Node.Persist.{PersistedState, load}
use zero_config_ha_cluster.Cluster.Manager.{wait_rejoin, new_manager}
use zero_config_ha_cluster.Cluster.Rejoin.{choose_initial_state}
use zero_config_ha_cluster.Cluster.Loop.{membership_change, handle}
use zero_config_ha_cluster.Cluster.Invariant.{op_fits, round_of}
use zero_config_ha_cluster.Cluster.Invariant.Reach.{takes}
use zero_config_ha_cluster.Cluster.Invariant.Published.{Publishing}
use zero_config_ha_cluster.Cluster.Safety.Lifecycle.{
  operations_match, rounds_match, is_stable, stable_is_persisted,
}
use zero_config_ha_cluster.Cluster.Safety.Terminal.{terminal_absorbs}
use zero_config_ha_cluster.Tests.Data.{
  one_failed, stable_server-state, evicting-state, sees, rejoining, rejoining-Reach, stable,
  stable_server-Reach, evicting, evicting-Reach, manager_in,
}

operations_match_example :
    ((rejoining server).operations ≡ wait_rejoin server ∷ [])
    × (op_fits (rejoining server).state (wait_rejoin server) ≡ true)
unfolding choose_initial_state new_manager load
operations_match_example =
    operations_match (wait_rejoin server) (rejoining-Reach server) (here refl)

rounds_match_example : evicting.operations ≡ round_of evicting.rescale ∷ []
rounds_match_example = rounds_match evicting-Reach evicting-state

stable_is_persisted_example :
    (p : PersistedState) × ((stable server).persisted_state ≡ some p)
    × (stable_state p.role ≡ (stable server).state)
stable_is_persisted_example =
    stable_is_persisted stable_server-Reach (ap is_stable stable_server-state)

-- Every call of `SetState` but the first fails.
abbrev last_call_fails : Publishing
last_call_fails = record {
  fails = λ es. elim es [ [] ↦ false | _ ∷ _ ↦ true ];
  sets_anyway = λ _. false;
}

terminal_absorbs_example :
    (handle (sees one_failed) membership_change (manager_in "a" rejoin_failed)).state
    ≡ rejoin_failed
terminal_absorbs_example = terminal_absorbs (takes (sees one_failed) membership_change tt refl) refl
