-- ===== src/Cluster/Running/Refinement.antt =====
-- The run loop of antsd/internal/cluster/manager.go with its channels does what the turns of
-- Invariant/Reach do, one at a time, and its channels stay within their bounds.
use zero_config_ha_cluster.Common.{
  ℕ, ◌+◌, ◌≤◌, ◌<◌, ◌≡◌, refl, sym, ap, subst, Bool, true, false, List, [], ◌∷◌, ◌++◌, String,
  length, count_if, if◌then◌else◌, arith, length-append,
}
use zero_config_ha_cluster.Cluster.Manager.{CommandType, Manager, Env, Payload, Operation}
use zero_config_ha_cluster.Cluster.Invariant.Reach.{takes, Reach, Reach-Inv, boots, turns}
use zero_config_ha_cluster.Node.State.{State}
use zero_config_ha_cluster.Cluster.Invariant.{fits}
use zero_config_ha_cluster.Serfnode.Events.{input_of, event_ch_capacity}
use zero_config_ha_cluster.Serfnode.Delivery.{handle_raw_event-bounded}
use zero_config_ha_cluster.Cluster.Running.{
  Command, is_user_action, is_result, is_expiry, handle_command, commands_capacity, command_of,
  Daemon, serve, stop_timers, input_of_command, Moves, receives, asks, expires, probes, finishes,
  takes_event, takes_command, takes_result, stops, Runs, begins, moves,
}
use zero_config_ha_cluster.Cluster.Running.Turns.{
  handle_serf_event-handle, handle_command-handle, handle_command-ends, handle-grows,
  handle_command-grows, serve-answers,
}

-- What holds of a daemon in every moment.
record IsSound (d : Daemon) : Type 0 where
  turned : (m : Manager) × Reach m × (d.manager ≡ (if d.running then m else stop_timers m))
  few_events : length d.events ≤ event_ch_capacity
  few_commands : length d.commands ≤ commands_capacity
  ended : count_if is_result d.commands ≤ length d.manager.operations
  answered : d.asked ≡ length d.replies + count_if is_user_action d.commands

module _ (p : Command → Bool) where
  count_if-cons :
      (c : Command) (cs : List Command)
      → count_if p (c ∷ cs) ≡ count_if p cs + (if p c then 1 else 0)
  count_if-cons c cs = ground arith

  count_if-append :
      (cs : List Command) (c : Command)
      → count_if p (cs ++ (c ∷ [])) ≡ count_if p cs + (if p c then 1 else 0)
  count_if-append [] c = ground arith
  count_if-append (x ∷ cs) c = ground (arith, count_if-append cs c)

unstopped :
    (d : Daemon)
    → d.running ≡ true
    → (m : Manager) × Reach m × (d.manager ≡ (if d.running then m else stop_timers m))
    → Reach d.manager
unstopped d r (m, h, e) = subst Reach (sym (ground arith)) h

still :
    (d : Daemon) (m : Manager)
    → d.running ≡ true
    → Reach m
    → (m' : Manager) × Reach m' × (m ≡ (if d.running then m' else stop_timers m'))
still d m r h = (m, h, ground arith)

-- A command that is submitted, where there is room for it.
submit-IsSound :
    (c : Command) (d : Daemon) (asked : ℕ)
    → IsSound d
    → length d.commands < commands_capacity
    → count_if is_result d.commands + (if is_result c then 1 else 0) ≤ length d.manager.operations
    → asked ≡ d.asked + (if is_user_action c then 1 else 0)
    → IsSound (record d { commands = d.commands ++ (c ∷ []); asked = asked })
submit-IsSound c d asked s l k a = record {
  turned = s.turned;
  few_events = s.few_events;
  few_commands = omega (arith, l, length-append d.commands (c ∷ []));
  ended = omega (arith, k, count_if-append is_result d.commands c);
  answered = omega (arith, a, s.answered, count_if-append is_user_action d.commands c);
}

stop_timers-operations : (m : Manager) → (stop_timers m).operations ≡ m.operations
unfolding stop_timers
stop_timers-operations m = refl

expiry_no_result : (t : CommandType) → is_expiry t ≡ true → is_result (command_of t) ≡ false
unfolding is_expiry is_result
expiry_no_result t h = ground arith

expiry_no_action : (t : CommandType) → is_expiry t ≡ true → is_user_action (command_of t) ≡ false
unfolding is_expiry is_user_action
expiry_no_action t h = ground arith

action_no_result : (c : Command) → is_user_action c ≡ true → is_result c ≡ false
unfolding is_user_action is_result
action_no_result c h = ground arith

result_no_action : (c : Command) → is_result c ≡ true → is_user_action c ≡ false
unfolding is_user_action is_result
result_no_action c h = ground arith

-- A command that is taken.
serve-IsSound :
    (env : Env) (c : Command) (cs : List Command) (m : Manager) (d : Daemon)
    → IsSound d
    → d.running ≡ true
    → d.commands ≡ c ∷ cs
    → Reach (handle_command env c m).0
    → count_if is_result cs ≤ length m.operations
    → IsSound (serve env c cs m d)
unfolding serve
serve-IsSound env c cs m d s r q h k = record {
  turned = still d _ r h;
  few_events = s.few_events;
  few_commands = omega (arith, s.few_commands, ap length q);
  ended = omega (arith, k, handle_command-grows env c m);
  answered = omega (
    arith,
    s.answered,
    ap (count_if is_user_action) q,
    serve-answers env c cs m d,
    count_if-cons is_user_action c cs,
  );
}

Moves-IsSound :
    (decode : String → Payload) {d d' : Daemon} → Moves decode d d' → IsSound d → IsSound d'
unfolding is_user_action is_result
Moves-IsSound decode (receives e d) s = record {
  turned = s.turned;
  few_events = handle_raw_event-bounded e d.events s.few_events;
  few_commands = s.few_commands;
  ended = s.ended;
  answered = s.answered;
}
Moves-IsSound decode (asks c d u l) s =
    submit-IsSound c d _ s l (ground (arith, s.ended, action_no_result c u)) (ground arith)
Moves-IsSound decode (expires t d u l) s =
    submit-IsSound (command_of t) d _ s l (ground (arith, s.ended, expiry_no_result t u))
      (ground (arith, expiry_no_action t u))
Moves-IsSound decode (probes name found d i l) s =
    submit-IsSound _ d _ s l (omega (arith, s.ended)) (omega arith)
Moves-IsSound decode (finishes c d u k l) s =
    submit-IsSound c d _ s l (ground arith) (ground (arith, result_no_action c u))
Moves-IsSound decode (takes_event env e es d r q n) s = record {
  turned = still d _ r (
      turns (unstopped d r s.turned)
        (takes env (input_of decode e) n (handle_serf_event-handle decode env e d.manager)));
  few_events = omega (arith, s.few_events, ap length q);
  few_commands = s.few_commands;
  ended =
      subst (λ x. count_if is_result d.commands ≤ length x.operations)
        (sym (handle_serf_event-handle decode env e d.manager))
        (omega (arith, s.ended, handle-grows env (input_of decode e) d.manager));
  answered = s.answered;
}
Moves-IsSound decode (takes_command env c cs d r q n h) s =
    serve-IsSound env c cs d.manager d s r q
      (turns (unstopped d r s.turned)
        (takes env (input_of_command c) h (handle_command-handle env c d.manager n)))
      (ground (arith, s.ended, ap (count_if is_result) q, n))
Moves-IsSound decode (takes_result env c cs op before after d r q n e) s =
    serve-IsSound env c cs _ d s r q
      (turns (unstopped d r s.turned) (handle_command-ends env c op before after d.manager n e))
      (ground (
        arith,
        s.ended,
        ap (count_if is_result) q,
        ap length e,
        length-append before (op ∷ after),
        length-append before after,
        n,
      ))
Moves-IsSound decode (stops d r) s = record {
  turned = (d.manager, unstopped d r s.turned, refl);
  few_events = s.few_events;
  few_commands = s.few_commands;
  ended = rw (stop_timers-operations d.manager) s.ended;
  answered = s.answered;
}

Runs-IsSound : (decode : String → Payload) {d : Daemon} → Runs decode d → IsSound d
Runs-IsSound decode (begins config grace settle file) = record {
  turned = (_, boots config grace settle file _ refl, refl);
  few_events = omega arith;
  few_commands = omega arith;
  ended = omega arith;
  answered = refl;
}
Runs-IsSound decode (moves r s) = Moves-IsSound decode s (Runs-IsSound decode r)

-- Whatever arrives in whatever order, the inputs that are taken respecting what turns assume of them:
-- the manager of a daemon that runs is one that turns, one at a time, lead to from its boot, and the
-- manager of a stopped one is such a manager with its timers stopped.
pub run_refines_turns :
    (decode : String → Payload) (d : Daemon)
    → Runs decode d
    → (m : Manager) × Reach m × (d.manager ≡ (if d.running then m else stop_timers m))
run_refines_turns decode d r = (Runs-IsSound decode r).turned

fits-short : (s : State) (ops : List Operation) → fits s ops ≡ true → length ops ≤ 1
fits-short s [] h = omega arith
fits-short s (x ∷ []) h = omega arith
fits-short s (x ∷ y ∷ ops) h = absurd (ground arith)

running-short :
    (d : Daemon)
    → (m : Manager) × Reach m × (d.manager ≡ (if d.running then m else stop_timers m))
    → length d.manager.operations ≤ 1
unfolding stop_timers
running-short d (m, h, e) =
    let k = fits-short m.state m.operations (Reach-Inv h).matched.fitting in ground arith

-- In every run whose inputs respect what turns assume of them, at most 64 events and 16 commands wait;
-- at most one result of an operation waits, and none without an operation whose end was not taken yet;
-- and every user action was answered once, or waits.
pub run_channels :
    (decode : String → Payload) (d : Daemon)
    → Runs decode d
    → (length d.events ≤ 64)
      × (length d.commands ≤ 16)
      × (count_if is_result d.commands ≤ length d.manager.operations)
      × (length d.manager.operations ≤ 1)
      × (d.asked ≡ length d.replies + count_if is_user_action d.commands)
run_channels decode d r =
    let s = Runs-IsSound decode r in
    (s.few_events, s.few_commands, s.ended, running-short d s.turned, s.answered)
