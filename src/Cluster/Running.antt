-- ===== src/Cluster/Running.antt =====
-- The run loop of antsd/internal/cluster/manager.go with what it reads from: the channel of Serf
-- events, and the queue of commands, into which the admin server, the timers and the goroutines put
-- theirs. Any of them may be next at any moment.
pub mod Turns
pub mod Refinement
pub mod Consistency
use zero_config_ha_cluster.Common.{
  ℕ, suc, ◌≤◌, ◌<◌, ◌≡◌, Bool, true, false, List, [], ◌∷◌, ◌++◌, Option, none, some, String, length,
  count_if, In,
}
use zero_config_ha_cluster.Node.Persist.{StateFile}
use zero_config_ha_cluster.Cluster.Manager.{
  CommandType, request_bootstrap, confirm_bootstrap, cancel_bootstrap, bootstrap_wait_expired,
  join_wait_expired, forget_retry, forget_probed, rescale_check, k3s_operation_succeeded,
  k3s_operation_failed, Manager, Env, Config, Payload, Operation, Effect, probe_node, new_manager,
  observe_cluster,
}
use zero_config_ha_cluster.Cluster.Rejoin.{choose_initial_state}
use zero_config_ha_cluster.Cluster.Joining.{
  stop_joining_timer, on_join_wait_expired, on_forget_retry,
}
use zero_config_ha_cluster.Cluster.Bootstrap.{
  ActionResult, stop_bootstrap_timer, on_request_bootstrap, on_confirm_bootstrap,
  on_cancel_bootstrap, on_bootstrap_wait_expired,
}
use zero_config_ha_cluster.Cluster.Rescale.{stop_rescale_timer, maybe_rescale}
use zero_config_ha_cluster.Cluster.Forgetting.{on_forget_probed}
use zero_config_ha_cluster.Cluster.Loop.{
  Input, membership_change, on_membership_change, handle_user_event, handle,
  on_k3s_operation_succeeded, on_k3s_operation_failed,
}
use zero_config_ha_cluster.Cluster.Invariant.Reach.{Respects}
use zero_config_ha_cluster.Serfnode.Events.{
  Event, user, RawEvent, handle_raw_event, event_name, input_of,
}

-- `command`. The error of a failed operation is only logged, and the reply of a user action is what
-- its handler returns.
pub record Command : Type 0 where
  pub typ : CommandType
  pub name : String
  pub found : Bool

-- `command{typ: typ}`.
abbrev pub command_of : CommandType → Command
command_of typ = record { typ = typ; name = ""; found = false }

-- The commands with a reply.
unfoldable pub is_user_action : Command → Bool
is_user_action c = elim c.typ [
  | request_bootstrap ↦ true
  | confirm_bootstrap ↦ true
  | cancel_bootstrap ↦ true
  | _ ↦ false
]

-- The commands of timers.
unfoldable pub is_expiry : CommandType → Bool
is_expiry bootstrap_wait_expired = true
is_expiry join_wait_expired = true
is_expiry forget_retry = true
is_expiry rescale_check = true
is_expiry _ = false

-- The commands that bring the result of an operation.
unfoldable pub is_result : Command → Bool
is_result c = elim c.typ [
  | k3s_operation_succeeded ↦ true
  | k3s_operation_failed ↦ true
  | _ ↦ false
]

-- `onRescaleCheck`.
unfoldable pub on_rescale_check : Env → Manager → Manager
unfolding observe_cluster
on_rescale_check env m = maybe_rescale env (observe_cluster env m) m

abbrev no_reply : Manager → Manager × Option ActionResult
no_reply m = (m, none)

abbrev reply : Manager × ActionResult → Manager × Option ActionResult
reply (m, r) = (m, some r)

-- `handleCommand`, with the reply if there is one.
unfoldable pub handle_command : Env → Command → Manager → Manager × Option ActionResult
unfolding on_rescale_check
handle_command env c m = elim c.typ [
  | request_bootstrap ↦ reply (on_request_bootstrap env m)
  | confirm_bootstrap ↦ reply (on_confirm_bootstrap env m)
  | cancel_bootstrap ↦ reply (on_cancel_bootstrap m)
  | bootstrap_wait_expired ↦ no_reply (on_bootstrap_wait_expired env m)
  | join_wait_expired ↦ no_reply (on_join_wait_expired env m)
  | forget_retry ↦ no_reply (on_forget_retry env m)
  | forget_probed ↦ no_reply (on_forget_probed env c.name c.found m)
  | rescale_check ↦ no_reply (on_rescale_check env m)
  | k3s_operation_succeeded ↦ no_reply (on_k3s_operation_succeeded env m)
  | k3s_operation_failed ↦ no_reply (on_k3s_operation_failed env m)
]

-- `handleSerfEvent`; `decode` is the JSON decoding of a payload.
unfoldable pub handle_serf_event : (String → Payload) → Env → Event → Manager → Manager
unfolding event_name
handle_serf_event decode env e m = elim e.type [
  | user ↦ handle_user_event env (event_name e.name) (decode e.payload) m
  | _ ↦ on_membership_change env m
]

-- The capacity of `commands`.
abbrev pub commands_capacity : ℕ
commands_capacity = 16

-- The manager with its two channels, the oldest entry first. `asked` counts the user actions that
-- were submitted, and `replies` has what they were answered, the newest first; `running` is false
-- once the context is canceled and `Run` has returned.
pub record Daemon : Type 0 where
  pub manager : Manager
  pub events : List Event
  pub commands : List Command
  pub asked : ℕ
  pub replies : List ActionResult
  pub running : Bool

-- `submit` while the queue is not full.
abbrev pub submit : Command → Daemon → Daemon
submit c d = record d { commands = d.commands ++ (c ∷ []) }

-- The turn of `Run` for the command `c`, when `m` is the manager and `cs` are the commands behind.
unfoldable pub serve : Env → Command → List Command → Manager → Daemon → Daemon
unfolding handle_command
serve env c cs m d =
    let (m', r) = handle_command env c m in
    record d {
      manager = m';
      commands = cs;
      replies = elim r [ none ↦ d.replies | some x ↦ x ∷ d.replies ];
    }

-- The case of `Run` for a canceled context.
unfoldable pub stop_timers : Manager → Manager
unfolding stop_bootstrap_timer stop_joining_timer stop_rescale_timer
stop_timers m = stop_rescale_timer (stop_joining_timer (stop_bootstrap_timer m))

-- The input that a command other than a result is.
abbrev pub input_of_command : Command → Input
input_of_command c = elim c.typ [
  | request_bootstrap ↦ Input.request_bootstrap
  | confirm_bootstrap ↦ Input.confirm_bootstrap
  | cancel_bootstrap ↦ Input.cancel_bootstrap
  | bootstrap_wait_expired ↦ Input.bootstrap_wait_expired
  | join_wait_expired ↦ Input.join_wait_expired
  | forget_retry ↦ Input.forget_retry
  | forget_probed ↦ Input.forget_probed c.name c.found
  | rescale_check ↦ Input.rescale_check
  | _ ↦ membership_change
]

-- What may happen next, where the inputs that are taken respect what `Respects` assumes. A timer
-- may have fired before it was stopped, so that any expiry may still arrive; a lookup answers for a
-- name that it was started for; a goroutine of an operation submits one result; `submit` waits for
-- room, and `Run` takes from either channel while the context lives.
pub data Moves (decode : String → Payload) : Daemon → Daemon → Type 0 where
  receives :
      (e : RawEvent) (d : Daemon)
      → Moves decode d (record d { events = handle_raw_event e d.events })
  asks :
      (c : Command) (d : Daemon)
      → is_user_action c ≡ true
      → length d.commands < commands_capacity
      → Moves decode d (record d { commands = d.commands ++ (c ∷ []); asked = suc d.asked })
  expires :
      (t : CommandType) (d : Daemon)
      → is_expiry t ≡ true
      → length d.commands < commands_capacity
      → Moves decode d (submit (command_of t) d)
  probes :
      (name : String) (found : Bool) (d : Daemon)
      → In (probe_node name) d.manager.effects
      → length d.commands < commands_capacity
      → Moves decode d (submit (record { typ = forget_probed; name = name; found = found }) d)
  finishes :
      (c : Command) (d : Daemon)
      → is_result c ≡ true
      → count_if is_result d.commands < length d.manager.operations
      → length d.commands < commands_capacity
      → Moves decode d (submit c d)
  takes_event :
      (env : Env) (e : Event) (es : List Event) (d : Daemon)
      → d.running ≡ true
      → d.events ≡ e ∷ es
      → Respects (input_of decode e) d.manager
      → Moves decode d
          (record d { manager = handle_serf_event decode env e d.manager; events = es })
  takes_command :
      (env : Env) (c : Command) (cs : List Command) (d : Daemon)
      → d.running ≡ true
      → d.commands ≡ c ∷ cs
      → is_result c ≡ false
      → Respects (input_of_command c) d.manager
      → Moves decode d (serve env c cs d.manager d)
  takes_result :
      (env : Env) (c : Command) (cs : List Command) (op : Operation) (before after : List Operation)
      (d : Daemon)
      → d.running ≡ true
      → d.commands ≡ c ∷ cs
      → is_result c ≡ true
      → d.manager.operations ≡ before ++ op ∷ after
      → Moves decode d (serve env c cs (record (d.manager) { operations = before ++ after }) d)
  stops :
      (d : Daemon)
      → d.running ≡ true
      → Moves decode d (record d { manager = stop_timers d.manager; running = false })

-- `Run` behind the start of Serf and of the admin server, up to its loop.
abbrev pub begin : Config → ℕ → ℕ → StateFile → Daemon
begin config grace settle file = record {
  manager = choose_initial_state file (new_manager config grace settle);
  events = [];
  commands = [];
  asked = 0;
  replies = [];
  running = true;
}

-- What a daemon can come to.
pub data Runs (decode : String → Payload) : Daemon → Type 0 where
  begins :
      (config : Config) (grace settle : ℕ) (file : StateFile)
      → Runs decode (begin config grace settle file)
  moves : {d d' : Daemon} → Runs decode d → Moves decode d d' → Runs decode d'
