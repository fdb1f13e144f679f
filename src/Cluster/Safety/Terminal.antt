-- ===== src/Cluster/Safety/Terminal.antt =====
-- The terminal states of antsd/internal/node/state.go: a failed node no longer progresses.
use zero_config_ha_cluster.Common.{◌≡◌, refl, ap, ◌∙◌, Bool, true, false, ◌++◌, arith}
use zero_config_ha_cluster.Node.State.{
  State, bootstrap_failed, joining_failed, rejoin_failed, rescale_failed,
}
use zero_config_ha_cluster.Node.Role.{stable_state}
use zero_config_ha_cluster.Cluster.Manager.{Manager, Env, Payload, EventName, observe_cluster}
use zero_config_ha_cluster.Cluster.View.{View}
use zero_config_ha_cluster.Cluster.Joining.{
  maybe_start_joining_path, maybe_join_cluster, on_join_wait_expired, on_forget_retry, resume_join,
  on_forgotten,
}
use zero_config_ha_cluster.Cluster.Bootstrap.{
  on_request_bootstrap, on_cancel_bootstrap, on_confirm_bootstrap, on_bootstrap_requested,
  on_bootstrap_wait_expired, on_bootstrap_start, maybe_install_server, maybe_install_agent,
}
use zero_config_ha_cluster.Cluster.Rescale.{maybe_rescale, observe_failures}
use zero_config_ha_cluster.Cluster.Forgetting.{can_forget, on_forget_me, on_forget_probed}
use zero_config_ha_cluster.Cluster.Rounds.{obey, on_rescale_convert}
use zero_config_ha_cluster.Cluster.Loop.{
  Input, membership_change, user_event, handle, handle_user_event, on_membership_change,
  on_k3s_operation_succeeded, on_k3s_operation_failed,
}
use zero_config_ha_cluster.Cluster.Invariant.Reach.{Step, takes, succeeds, fails}

-- The terminal states.
abbrev pub is_terminal : State → Bool
is_terminal bootstrap_failed = true
is_terminal joining_failed = true
is_terminal rejoin_failed = true
is_terminal rescale_failed = true
is_terminal _ = false

module _ (m : Manager) (t : is_terminal m.state ≡ true) where
  diverts_not : (v : View) → maybe_start_joining_path v m ≡ m
  unfolding maybe_start_joining_path
  diverts_not v = ground arith

  joins_not : (v : View) → maybe_join_cluster v m ≡ m
  unfolding maybe_join_cluster
  joins_not v = ground arith

  installs_no_server : (v : View) → maybe_install_server v m ≡ m
  unfolding maybe_install_server
  installs_no_server v = ground arith

  installs_no_agent : (v : View) → maybe_install_agent v m ≡ m
  unfolding maybe_install_agent
  installs_no_agent v = ground arith

  rescales_not : (env : Env) (v : View) → (maybe_rescale env v m).state ≡ m.state
  unfolding maybe_rescale observe_failures
  rescales_not env v = ground arith

  forgotten_not : (env : Env) (p : Payload) → (on_forgotten env p m).state ≡ m.state
  unfolding on_forgotten resume_join
  forgotten_not env p = ground arith

  converts_not : (p : Payload) → (on_rescale_convert p m).state ≡ m.state
  unfolding on_rescale_convert obey stable_state
  converts_not p = ground arith

  probed_not :
      (env : Env) (name : _) (found : Bool) → (on_forget_probed env name found m).state ≡ m.state
  unfolding on_forget_probed can_forget
  probed_not env name found = ground arith

terminal_membership :
    (env : Env) (m : Manager)
    → is_terminal m.state ≡ true
    → (on_membership_change env m).state ≡ m.state
unfolding on_membership_change
terminal_membership env m t =
    let v = observe_cluster env m in
    rw (diverts_not m t v, joins_not m t v, installs_no_server m t v, installs_no_agent m t v)
      (rescales_not m t env v)

terminal_handle :
    (env : Env) (i : Input) (m : Manager)
    → is_terminal m.state ≡ true
    → (handle env i m).state ≡ m.state
unfolding handle handle_user_event on_request_bootstrap on_cancel_bootstrap on_confirm_bootstrap
    on_bootstrap_requested on_bootstrap_wait_expired on_bootstrap_start on_join_wait_expired
    on_forget_retry on_forget_me
terminal_handle env membership_change m t = terminal_membership env m t
terminal_handle env (user_event EventName.forgotten p) m t = forgotten_not m t env p
terminal_handle env (user_event EventName.rescale_convert p) m t = converts_not m t p
terminal_handle env (user_event EventName.forget_me p) m t = ground arith
terminal_handle env (user_event EventName.bootstrap_requested p) m t = ground arith
terminal_handle env (user_event EventName.bootstrap_start p) m t = ground arith
terminal_handle env (user_event (EventName.unknown_event n) p) m t = refl
terminal_handle env (Input.forget_probed name found) m t = probed_not m t env name found
terminal_handle env Input.rescale_check m t = rescales_not m t env _
terminal_handle env Input.request_bootstrap m t = ground arith
terminal_handle env Input.confirm_bootstrap m t = ground arith
terminal_handle env Input.cancel_bootstrap m t = ground arith
terminal_handle env Input.bootstrap_wait_expired m t = ground arith
terminal_handle env Input.join_wait_expired m t = ground arith
terminal_handle env Input.forget_retry m t = ground arith

terminal_succeeds :
    (env : Env) (m : Manager)
    → is_terminal m.state ≡ true
    → (on_k3s_operation_succeeded env m).state ≡ m.state
unfolding on_k3s_operation_succeeded
terminal_succeeds env m t = ground arith

terminal_fails :
    (env : Env) (m : Manager)
    → is_terminal m.state ≡ true
    → (on_k3s_operation_failed env m).state ≡ m.state
unfolding on_k3s_operation_failed
terminal_fails env m t = ground arith

-- No turn of the run loop moves a node out of a terminal state, whatever it takes from outside.
pub terminal_absorbs :
    {m m' : Manager} → Step m m' → is_terminal m.state ≡ true → m'.state ≡ m.state
terminal_absorbs {m} (takes env i r e) t =
    ap (λ (n : Manager). n.state) e ∙ terminal_handle env i m t
terminal_absorbs {m} (succeeds env op before after s e) t =
    ap (λ (n : Manager). n.state) e
    ∙ terminal_succeeds env (record m { operations = before ++ after }) t
terminal_absorbs {m} (fails env op before after s e) t =
    ap (λ (n : Manager). n.state) e
    ∙ terminal_fails env (record m { operations = before ++ after }) t
