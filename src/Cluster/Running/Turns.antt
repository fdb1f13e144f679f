-- ===== src/Cluster/Running/Turns.antt =====
-- What the run loop of antsd/internal/cluster/manager.go takes from its channels are turns of
-- Invariant/Reach, which drop no operation in flight; and what it answers.
use zero_config_ha_cluster.Common.{
  ◌+◌, ◌≤◌, ◌≡◌, refl, sym, subst, true, false, List, ◌∷◌, ◌++◌, String, length, if◌then◌else◌,
  arith, eq_refl, false,
}
use zero_config_ha_cluster.Cluster.Manager.{
  CommandType, k3s_operation_succeeded, k3s_operation_failed, Manager, Env, Payload, Operation,
}
use zero_config_ha_cluster.Cluster.Loop.{Input, handle}
use zero_config_ha_cluster.Cluster.Invariant.Reach.{Step, succeeds, fails}
use zero_config_ha_cluster.Cluster.Keeping.{Asked, keeps, allows, spares}
use zero_config_ha_cluster.Cluster.Keeping.Dispatch.{handle-keeps}
use zero_config_ha_cluster.Cluster.Keeping.Results.{
  on_k3s_operation_succeeded-keeps, on_k3s_operation_failed-keeps,
}
use zero_config_ha_cluster.Serfnode.Events.{Event, input_of}
use zero_config_ha_cluster.Cluster.Running.{
  Command, is_user_action, is_result, handle_command, on_rescale_check, handle_serf_event, Daemon,
  serve, input_of_command,
}

-- A Serf event is the turn of its input.
pub handle_serf_event-handle :
    (decode : String → Payload) (env : Env) (e : Event) (m : Manager)
    → handle_serf_event decode env e m ≡ handle env (input_of decode e) m
unfolding handle_serf_event input_of handle
handle_serf_event-handle decode env e m = ground arith

-- A command that is no result is the turn of its input.
pub handle_command-handle :
    (env : Env) (c : Command) (m : Manager)
    → is_result c ≡ false
    → (handle_command env c m).0 ≡ handle env (input_of_command c) m
unfolding handle_command is_result handle on_rescale_check
handle_command-handle env c m h = ground arith

-- The result of an operation is the turn of its end.
pub handle_command-ends :
    (env : Env) (c : Command) (op : Operation) (before after : List Operation) (m : Manager)
    → is_result c ≡ true
    → m.operations ≡ before ++ op ∷ after
    → Step m (handle_command env c (record m { operations = before ++ after })).0
unfolding handle_command is_result
handle_command-ends env c op before after m h e = by_typ c.typ refl
  where
    m' : Manager
    m' = record m { operations = before ++ after }

    by_typ : (t : CommandType) → c.typ ≡ t → Step m (handle_command env c m').0
    by_typ k3s_operation_succeeded q = succeeds env op before after e (ground arith)
    by_typ k3s_operation_failed q = fails env op before after e (ground arith)
    by_typ _ q = absurd (ground arith)

-- Only the operations in flight are asked to stay.
abbrev as_many : Manager → Asked
as_many m = record {
  operations = length m.operations;
  name = m.config.node_name;
  calm = false;
  uncleared = false;
  unordered = false;
}

grows : (k : Asked) (m : Manager) → keeps k m ≡ true → k.operations ≤ length m.operations
unfolding keeps
grows k m h = ground arith

all_kept : (m : Manager) → keeps (as_many m) m ≡ true
unfolding keeps
all_kept m = ground (arith, eq_refl m.config.node_name)

input-allowed : (m : Manager) (i : Input) → allows (as_many m) i ≡ true
unfolding allows spares
input-allowed m i = ground arith

pub handle-grows :
    (env : Env) (i : Input) (m : Manager) → length m.operations ≤ length (handle env i m).operations
handle-grows env i m =
    grows (as_many m) _ (handle-keeps (as_many m) env i m (input-allowed m i) (all_kept m))

-- No command drops an operation in flight.
pub handle_command-grows :
    (env : Env) (c : Command) (m : Manager)
    → length m.operations ≤ length (handle_command env c m).0.operations
unfolding handle_command is_result
handle_command-grows env c m = by_typ c.typ refl
  where
    as_input :
        is_result c ≡ false → length m.operations ≤ length (handle_command env c m).0.operations
    as_input h =
        subst (λ x. length m.operations ≤ length x.operations)
          (sym (handle_command-handle env c m h)) (handle-grows env (input_of_command c) m)

    by_typ :
        (t : CommandType)
        → c.typ ≡ t
        → length m.operations ≤ length (handle_command env c m).0.operations
    by_typ k3s_operation_succeeded q =
        rw (q, handle_command)
          (grows (as_many m) _ (on_k3s_operation_succeeded-keeps (as_many m) env m (all_kept m)))
    by_typ k3s_operation_failed q =
        rw (q, handle_command)
          (grows (as_many m) _ (on_k3s_operation_failed-keeps (as_many m) env m (all_kept m)))
    by_typ _ q = as_input (ground arith)

-- A command is answered exactly if it is a user action.
pub serve-answers :
    (env : Env) (c : Command) (cs : List Command) (m : Manager) (d : Daemon)
    → length (serve env c cs m d).replies ≡ length d.replies + (if is_user_action c then 1 else 0)
unfolding serve handle_command is_user_action
serve-answers env c cs m d = ground arith
