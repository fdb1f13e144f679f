-- ===== src/Tests/Running.antt =====
-- A daemon with its channels (antsd/internal/cluster/manager.go), and a site of two machines.
use zero_config_ha_cluster.Common.{
  ◌+◌, ◌++◌, ◌≤◌, ◌≡◌, refl, true, false, [], ◌∷◌, String, length, count_if, any, if◌then◌else◌,
  here, there, arith,
}
use zero_config_ha_cluster.Node.Persist.{missing}
use zero_config_ha_cluster.Cluster.Manager.{
  Manager, Config, Payload, empty, request_bootstrap, new_manager,
}
use zero_config_ha_cluster.Cluster.Rejoin.{choose_initial_state}
use zero_config_ha_cluster.Cluster.Loop.{Input, handle}
use zero_config_ha_cluster.Cluster.Invariant.Reach.{Reach}
use zero_config_ha_cluster.Cluster.Keeping.{is_founding, is_signal}
use zero_config_ha_cluster.Cluster.Running.{
  Daemon, command_of, is_user_action, is_result, serve, stop_timers, receives, asks, takes_command,
  begin, Runs, begins, moves,
}
use zero_config_ha_cluster.Cluster.Running.Refinement.{run_refines_turns, run_channels}
use zero_config_ha_cluster.Cluster.Invariant.Published.{Publishing}
use zero_config_ha_cluster.Cluster.System.Signals.{
  Site, is_local, Forms, nobody, boots, turns, reacts,
}
use zero_config_ha_cluster.Cluster.System.Causes.{founds_only_confirmed}
use zero_config_ha_cluster.Serfnode.Events.{RawEvent, event_member_join, handle_raw_event}
use zero_config_ha_cluster.Tests.Data.{sees}

abbrev node_of : String → Config
node_of name = record { node_name = name; rescale_enabled = false }

abbrev no_json : String → Payload
no_json _ = empty

abbrev fresh_daemon : Daemon
fresh_daemon = begin (node_of "a") 1 1 missing

-- A member joins.
abbrev join_event : RawEvent
join_event =
    RawEvent.member_event event_member_join
      (record { name = "b"; addr = "10.0.0.2"; tags = [] } ∷ [])

-- The event waits, and behind it a user presses a button.
abbrev with_event : Daemon
with_event = record fresh_daemon { events = handle_raw_event join_event [] }

abbrev with_both : Daemon
with_both = record with_event { commands = command_of request_bootstrap ∷ []; asked = 1 }

-- The button is taken first.
abbrev pressed : Daemon
pressed = serve (sees []) (command_of request_bootstrap) [] with_both.manager with_both

waiting_run : Runs no_json with_both
unfolding is_user_action
waiting_run =
    moves (moves (begins (node_of "a") 1 1 missing) (receives join_event fresh_daemon))
      (asks (command_of request_bootstrap) with_event refl (omega arith))

pressed_run : Runs no_json pressed
unfolding is_result
pressed_run =
    moves waiting_run
      (takes_command (sees []) (command_of request_bootstrap) [] with_both refl refl refl tt)

run_refines_turns_example :
    (m : Manager) × Reach m × (pressed.manager ≡ (if pressed.running then m else stop_timers m))
run_refines_turns_example = run_refines_turns no_json pressed pressed_run

run_channels_example :
    (length pressed.events ≤ 64)
    × (length pressed.commands ≤ 16)
    × (count_if is_result pressed.commands ≤ length pressed.manager.operations)
    × (length pressed.manager.operations ≤ 1)
    × (pressed.asked ≡ length pressed.replies + count_if is_user_action pressed.commands)
run_channels_example = run_channels no_json pressed pressed_run

-- The first call of `SetState` fails.
abbrev first_call_fails : Publishing
first_call_fails = record {
  fails = λ es. elim es [ [] ↦ true | _ ∷ _ ↦ false ];
  sets_anyway = λ _. false;
}

abbrev machine_of : String → Manager
machine_of name = choose_initial_state missing (new_manager (node_of name) 1 1)

-- Two machines boot, and a user asks one of them for a cluster.
abbrev asking : Site
asking = record {
  machines = handle (sees []) Input.request_bootstrap (machine_of "a") ∷ machine_of "b" ∷ [];
  sent = (handle (sees []) Input.request_bootstrap (machine_of "a")).effects ++ [];
  confirmed = 0;
}

abbrev booted_two : Site
booted_two = record { machines = machine_of "a" ∷ machine_of "b" ∷ []; sent = []; confirmed = 0 }

asking_formed : Forms asking
unfolding is_local
asking_formed =
    turns booted_two [] (machine_of "b" ∷ []) (machine_of "a") _ refl
      (reacts (sees []) Input.request_bootstrap refl)
      (boots _ (node_of "a") 1 1 missing (boots _ (node_of "b") 1 1 missing nobody))

founds_only_confirmed_example :
    (is_founding (machine_of "b").state ≡ false) × (any is_signal (machine_of "b").effects ≡ false)
founds_only_confirmed_example =
    founds_only_confirmed asking (machine_of "b") asking_formed (there (here refl)) refl
