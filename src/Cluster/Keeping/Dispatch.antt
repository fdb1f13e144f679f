-- ===== src/Cluster/Keeping/Dispatch.antt =====
-- Every input of the run loop of antsd/internal/cluster/manager.go keeps what is asked, but for the
-- events and the confirmation that undo it.
use zero_config_ha_cluster.Common.{
  ℕ, ◌≡◌, true, false, not, List, some, none, String, ◌==◌, arith, if-elim, Option-cases, inl, inr,
}
use zero_config_ha_cluster.Node.State.{is_state, bootstrap_waiting, bootstrap_install_init}
use zero_config_ha_cluster.Node.Role.{rank}
use zero_config_ha_cluster.Cluster.View.{View, alive_member_names, find_existing_k3s_cluster_member}
use zero_config_ha_cluster.Cluster.Manager.{
  Manager, Env, EventName, observe_cluster, transition, start_k3s_operation, install_init,
}
use zero_config_ha_cluster.Cluster.Bootstrap.{
  fail_bootstrap, on_confirm_bootstrap, on_bootstrap_requested, on_bootstrap_wait_expired,
  on_bootstrap_start, stop_bootstrap_timer, assign_role, take_role,
}
use zero_config_ha_cluster.Cluster.Loop.{
  Input, membership_change, user_event, forget_probed, handle, handle_user_event,
  on_membership_change,
}
use zero_config_ha_cluster.Cluster.Keeping.{Asked, keeps, allows, spares, is_signal}
use zero_config_ha_cluster.Cluster.Keeping.Handlers.{
  maybe_start_joining_path-keeps, maybe_join_cluster-keeps, maybe_install_server-keeps,
  maybe_install_agent-keeps, on_request_bootstrap-keeps, on_cancel_bootstrap-keeps,
  on_join_wait_expired-keeps, on_forget_retry-keeps, on_forgotten-keeps,
}
use zero_config_ha_cluster.Cluster.Keeping.Rescaling.{
  maybe_rescale-keeps, on_forget_me-keeps, on_forget_probed-keeps, on_rescale_convert-keeps,
}

module _ (k : Asked) (f : k.calm ≡ false) where
  on_confirm_bootstrap-keeps :
      (env : Env) (m : Manager) → keeps k m ≡ true → keeps k (on_confirm_bootstrap env m).0 ≡ true
  unfolding keeps on_confirm_bootstrap
  on_confirm_bootstrap-keeps env m h = ground arith

  on_bootstrap_requested-keeps :
      (m : Manager) → keeps k m ≡ true → keeps k (on_bootstrap_requested m) ≡ true
  unfolding keeps on_bootstrap_requested
  on_bootstrap_requested-keeps m h = ground arith

  founding-keeps :
      (v : View) (m : Manager)
      → keeps k m ≡ true
      → keeps k (elim (find_existing_k3s_cluster_member v) [
        | some _ ↦ fail_bootstrap m
        | none ↦ start_k3s_operation install_init (transition bootstrap_install_init m)
      ])
        ≡ true
  unfolding keeps fail_bootstrap start_k3s_operation transition
  founding-keeps v m h = elim (Option-cases (find_existing_k3s_cluster_member v)) [
    | inl e ↦ rw e (ground arith)
    | inr (x, e) ↦ rw e (ground arith)
  ]

  assign_role-keeps :
      (names : List String) (r : ℕ) (m : Manager)
      → keeps k m ≡ true
      → keeps k (assign_role names r m) ≡ true
  unfolding keeps assign_role
  assign_role-keeps names r m h = h

  take_role-keeps :
      (v : View) (r : ℕ) (m : Manager) → keeps k m ≡ true → keeps k (take_role v r m) ≡ true
  unfolding take_role
  take_role-keeps v r m h =
      let m' = assign_role (alive_member_names v) r m in
      let h' : keeps k m' ≡ true = assign_role-keeps (alive_member_names v) r m h in
      if-elim (λ x. keeps k x ≡ true) (r == 0) _ _ (λ first. founding-keeps v m' h')
        (λ later. maybe_install_agent-keeps k v _ (maybe_install_server-keeps k v m' h'))

  fail_bootstrap-keeps : (m : Manager) → keeps k m ≡ true → keeps k (fail_bootstrap m) ≡ true
  unfolding keeps fail_bootstrap
  fail_bootstrap-keeps m h = ground arith

  stop_bootstrap_timer-keeps :
      (m : Manager) → keeps k m ≡ true → keeps k (stop_bootstrap_timer m) ≡ true
  unfolding keeps stop_bootstrap_timer
  stop_bootstrap_timer-keeps m h = h

  on_bootstrap_start-keeps :
      (env : Env) (m : Manager) → keeps k m ≡ true → keeps k (on_bootstrap_start env m) ≡ true
  unfolding on_bootstrap_start stop_bootstrap_timer
  on_bootstrap_start-keeps env m h =
      let m' = stop_bootstrap_timer m in
      let v = observe_cluster env m' in
      let h' : keeps k m' ≡ true = stop_bootstrap_timer-keeps m h in
      if-elim (λ x. keeps k x ≡ true) (not (is_state m.state bootstrap_waiting)) m _ (λ _. h)
        λ w. elim (Option-cases (rank (alive_member_names v) m'.config.node_name)) [
          | inl e ↦ rw e (fail_bootstrap-keeps m' h')
          | inr (r, e) ↦ rw e (take_role-keeps v r m' h')
        ]

module _ (k : Asked) where
  on_bootstrap_wait_expired-keeps :
      (env : Env) (m : Manager)
      → keeps k m ≡ true
      → keeps k (on_bootstrap_wait_expired env m) ≡ true
  unfolding keeps on_bootstrap_wait_expired
  on_bootstrap_wait_expired-keeps env m h = ground arith

  on_membership_change-keeps :
      (env : Env) (m : Manager) → keeps k m ≡ true → keeps k (on_membership_change env m) ≡ true
  unfolding on_membership_change
  on_membership_change-keeps env m h = maybe_rescale-keeps k env _ _ (
      maybe_install_agent-keeps k _ _ (
        maybe_install_server-keeps k _ _
          (maybe_join_cluster-keeps k _ _ (maybe_start_joining_path-keeps k _ m h))))

-- An input that does not undo what is asked.
pub handle-keeps :
    (k : Asked) (env : Env) (i : Input) (m : Manager)
    → allows k i ≡ true
    → keeps k m ≡ true
    → keeps k (handle env i m) ≡ true
unfolding handle handle_user_event allows spares is_signal
handle-keeps k env membership_change m c h = on_membership_change-keeps k env m h
handle-keeps k env (user_event EventName.bootstrap_requested p) m c h =
    on_bootstrap_requested-keeps k (ground arith) m h
handle-keeps k env (user_event EventName.bootstrap_start p) m c h =
    on_bootstrap_start-keeps k (ground arith) env m h
handle-keeps k env (user_event EventName.rescale_convert p) m c h =
    on_rescale_convert-keeps k p m c h
handle-keeps k env (user_event EventName.forget_me p) m c h = on_forget_me-keeps k env p m h
handle-keeps k env (user_event EventName.forgotten p) m c h = on_forgotten-keeps k env p m c h
handle-keeps k env (user_event (EventName.unknown_event _) p) m c h = h
handle-keeps k env Input.request_bootstrap m c h = on_request_bootstrap-keeps k env m h
handle-keeps k env Input.confirm_bootstrap m c h =
    on_confirm_bootstrap-keeps k (ground arith) env m h
handle-keeps k env Input.cancel_bootstrap m c h = on_cancel_bootstrap-keeps k m h
handle-keeps k env Input.bootstrap_wait_expired m c h = on_bootstrap_wait_expired-keeps k env m h
handle-keeps k env Input.join_wait_expired m c h = on_join_wait_expired-keeps k env m h
handle-keeps k env Input.forget_retry m c h = on_forget_retry-keeps k env m h
handle-keeps k env (forget_probed name found) m c h = on_forget_probed-keeps k env name found m h
handle-keeps k env Input.rescale_check m c h = maybe_rescale-keeps k env _ m h
