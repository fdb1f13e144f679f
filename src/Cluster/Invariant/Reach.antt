-- ===== src/Cluster/Invariant/Reach.antt =====
-- The node as a transition system: what it takes from the outside in any order, from boot on.
use zero_config_ha_cluster.Common.{
  ◌≡◌, refl, sym, subst, ℕ, false, List, [], ◌∷◌, ◌++◌, some, str_eq, arith,
}
use zero_config_ha_cluster.Node.State.{joining_cleanup, in_cluster}
use zero_config_ha_cluster.Node.Persist.{StateFile, load}
use zero_config_ha_cluster.Cluster.Manager.{
  Manager, EventName, Env, Config, Operation, forgotten, new_manager,
}
use zero_config_ha_cluster.Cluster.Rejoin.{choose_initial_state}
use zero_config_ha_cluster.Cluster.Joining.{read_forget_order}
use zero_config_ha_cluster.Cluster.Loop.{
  Input, membership_change, user_event, forget_probed, handle, handle_user_event,
  on_membership_change, on_k3s_operation_succeeded, on_k3s_operation_failed,
}
use zero_config_ha_cluster.Cluster.Invariant.{Inv, edge}
use zero_config_ha_cluster.Cluster.Invariant.Steps.{
  maybe_start_joining_path-Inv, maybe_join_cluster-Inv, maybe_install_server-Inv,
  maybe_install_agent-Inv, on_request_bootstrap-Inv, on_cancel_bootstrap-Inv,
  on_confirm_bootstrap-Inv, on_bootstrap_requested-Inv, on_bootstrap_wait_expired-Inv,
  on_bootstrap_start-Inv,
}
use zero_config_ha_cluster.Cluster.Invariant.Rescaling.{
  on_join_wait_expired-Inv, on_forget_retry-Inv, on_forgotten-Inv, maybe_rescale-Inv,
  on_forget_me-Inv, on_forget_probed-Inv, on_rescale_convert-Inv,
}
use zero_config_ha_cluster.Cluster.Invariant.Results.{
  HasEnded, on_k3s_operation_failed-Inv, on_k3s_operation_succeeded_by,
}

-- What the inputs are assumed to respect. A confirmation that names this very node answers a request
-- of this run of the program, so it does not come while the check that precedes the first request is
-- still under way (confirmations for other nodes may come at any time); and Serf members, which
-- lookups are about, have names.
abbrev pub Respects : Input → Manager → Type 0
Respects (user_event forgotten p) m =
    read_forget_order p ≡ some m.config.node_name → m.state ≡ joining_cleanup → m.operations ≡ []
Respects (forget_probed name found) m = str_eq name "" ≡ false
Respects _ m = Unit {0}

-- One turn of the run loop: an input, or the result of one of the operations in flight.
pub data Step (m m' : Manager) : Type 0 where
  takes : (env : Env) (i : Input) → Respects i m → m' ≡ handle env i m → Step m m'
  succeeds :
      (env : Env) (op : Operation) (before after : List Operation)
      → m.operations ≡ before ++ op ∷ after
      → m' ≡ on_k3s_operation_succeeded env (record m { operations = before ++ after })
      → Step m m'
  fails :
      (env : Env) (op : Operation) (before after : List Operation)
      → m.operations ≡ before ++ op ∷ after
      → m' ≡ on_k3s_operation_failed env (record m { operations = before ++ after })
      → Step m m'

-- The states that the run loop may be in, between two turns.
pub data Reach : Manager → Type 0 where
  boots :
      (config : Config) (grace settle : ℕ) (file : StateFile) (m : Manager)
      → m ≡ choose_initial_state file (new_manager config grace settle)
      → Reach m
  turns : {m m' : Manager} → Reach m → Step m m' → Reach m'

-- An input keeps the invariant.
pub handle-Inv : (env : Env) (i : Input) (m : Manager) → Respects i m → Inv m → Inv (handle env i m)
unfolding handle handle_user_event on_membership_change
handle-Inv env membership_change m r i = maybe_rescale-Inv env _ _ (
    maybe_install_agent-Inv _ _ (
      maybe_install_server-Inv _ _
        (maybe_join_cluster-Inv _ _ (maybe_start_joining_path-Inv _ m i))))
handle-Inv env (user_event forgotten p) m r i = on_forgotten-Inv env p m r i
handle-Inv env (user_event EventName.bootstrap_requested p) m r i = on_bootstrap_requested-Inv m i
handle-Inv env (user_event EventName.bootstrap_start p) m r i = on_bootstrap_start-Inv env m i
handle-Inv env (user_event EventName.rescale_convert p) m r i = on_rescale_convert-Inv p m i
handle-Inv env (user_event EventName.forget_me p) m r i = on_forget_me-Inv env p m i
handle-Inv env (user_event (EventName.unknown_event n) p) m r i = i
handle-Inv env Input.request_bootstrap m r i = on_request_bootstrap-Inv env m i
handle-Inv env Input.confirm_bootstrap m r i = on_confirm_bootstrap-Inv env m i
handle-Inv env Input.cancel_bootstrap m r i = on_cancel_bootstrap-Inv m i
handle-Inv env Input.bootstrap_wait_expired m r i = on_bootstrap_wait_expired-Inv env m i
handle-Inv env Input.join_wait_expired m r i = on_join_wait_expired-Inv env m i
handle-Inv env Input.forget_retry m r i = on_forget_retry-Inv env m i
handle-Inv env (forget_probed name found) m r i = on_forget_probed-Inv env name found m r i
handle-Inv env Input.rescale_check m r i = maybe_rescale-Inv env _ m i

-- The result of the one operation in flight is taken.
takes_result :
    (m : Manager) (op : Operation) (before after : List Operation)
    → Inv m
    → m.operations ≡ before ++ op ∷ after
    → (m.operations ≡ op ∷ []) × HasEnded (record m { operations = before ++ after })
takes_result m op [] [] i e = (e, ground arith)
takes_result m op [] (x ∷ xs) i e = absurd (ground arith)
takes_result m op (b ∷ []) after i e = absurd (ground arith)
takes_result m op (b ∷ c ∷ bs) after i e = absurd (ground arith)

pub Step-Inv : {m m' : Manager} → Step m m' → Inv m → Inv m'
Step-Inv {m} (takes env i r e) v = subst Inv (sym e) (handle-Inv env i m r v)
Step-Inv {m} (succeeds env op before after s e) v =
    subst Inv (sym e)
      (on_k3s_operation_succeeded_by m.state env _ refl (takes_result m op before after v s).1)
Step-Inv {m} (fails env op before after s e) v =
    subst Inv (sym e) (on_k3s_operation_failed-Inv env _ (takes_result m op before after v s).1)

boot-Inv :
    (config : Config) (grace settle : ℕ) (file : StateFile)
    → Inv (choose_initial_state file (new_manager config grace settle))
unfolding choose_initial_state new_manager load in_cluster edge
boot-Inv config grace settle file = ground arith

pub Reach-Inv : {m : Manager} → Reach m → Inv m
Reach-Inv (boots config grace settle file m e) =
    subst Inv (sym e) (boot-Inv config grace settle file)
Reach-Inv (turns r s) = Step-Inv s (Reach-Inv r)
