-- ===== src/Cluster/System/Handlers.antt =====
-- Where the handlers of antsd/internal/cluster leave a machine in the order of the servers.
use zero_config_ha_cluster.Common.{
  ℕ, ◌≤◌, ◌≡◌, sym, subst, String, str_eq, List, if-elim, Option-cases, inl, inr, true, false, not,
  ◌||◌, some, none, length, ◌==◌, arith,
}
use zero_config_ha_cluster.Node.State.{
  is_state, bootstrap_install_init, bootstrap_waiting, joining_cleanup, joining_waiting,
}
use zero_config_ha_cluster.Node.Role.{rank, role_for_rank, desired_server_count}
use zero_config_ha_cluster.Cluster.View.{
  View, find_existing_k3s_cluster_member, alive_member_names, stable_server_count,
}
use zero_config_ha_cluster.Cluster.Manager.{
  Manager, Env, Payload, EventName, bootstrap_start, rescale_convert, observe_cluster, transition,
  start_k3s_operation, install_init,
}
use zero_config_ha_cluster.Cluster.Joining.{
  on_join_wait_expired, on_forget_retry, on_forgotten, resume_join, read_forget_order,
}
use zero_config_ha_cluster.Cluster.Bootstrap.{
  stop_bootstrap_timer, fail_bootstrap, assign_role, take_role, on_request_bootstrap,
  on_confirm_bootstrap, on_cancel_bootstrap, on_bootstrap_requested, on_bootstrap_wait_expired,
  on_bootstrap_start, maybe_install_server, maybe_install_agent,
}
use zero_config_ha_cluster.Cluster.Forgetting.{on_forget_me, on_forget_probed}
use zero_config_ha_cluster.Cluster.Loop.{
  Input, user_event, forget_probed, handle, handle_user_event,
}
use zero_config_ha_cluster.Cluster.System.{is_ordinary}
use zero_config_ha_cluster.Cluster.System.Fits.{
  fits, maybe_join_cluster-fits, maybe_install_server-fits, maybe_install_agent-fits,
  maybe_rescale-fits, on_membership_change-fits,
}

pub desired_server_count-positive : (n : ℕ) → 1 ≤ n → 1 ≤ desired_server_count n
unfolding desired_server_count
desired_server_count-positive n h = ground arith

assign_role-fits :
    (s r : ℕ) (names : List String) (m : Manager)
    → fits (length names) s r m ≡ true
    → fits (length names) s r (assign_role names r m) ≡ true
unfolding fits assign_role role_for_rank
assign_role-fits s r names m h = ground arith

founding-fits :
    (n s r : ℕ) (v : View) (m : Manager)
    → r ≡ 0
    → m.state ≡ bootstrap_waiting
    → 1 ≤ desired_server_count n
    → fits n s r m ≡ true
    → fits n s r (elim (find_existing_k3s_cluster_member v) [
      | some _ ↦ fail_bootstrap m
      | none ↦ start_k3s_operation install_init (transition bootstrap_install_init m)
    ])
      ≡ true
unfolding fits fail_bootstrap start_k3s_operation transition
founding-fits n s r v m z w p h = elim (Option-cases (find_existing_k3s_cluster_member v)) [
  | inl e ↦ rw e (ground arith)
  | inr (x, e) ↦ rw e (ground arith)
]

take_role-fits :
    (s r : ℕ) (v : View) (m : Manager)
    → m.state ≡ bootstrap_waiting
    → stable_server_count v ≤ s
    → 1 ≤ length (alive_member_names v)
    → fits (length (alive_member_names v)) s r m ≡ true
    → fits (length (alive_member_names v)) s r (take_role v r m) ≡ true
unfolding take_role
take_role-fits s r v m w l p h =
    let names = alive_member_names v in
    let m' = assign_role names r m in
    let a = assign_role-fits s r names m h in
    if-elim (λ x. fits (length names) s r x ≡ true) (r == 0)
      (elim (find_existing_k3s_cluster_member v) [
        | some _ ↦ fail_bootstrap m'
        | none ↦ start_k3s_operation install_init (transition bootstrap_install_init m')
      ])
      (maybe_install_agent v (maybe_install_server v m'))
      (λ z.
        founding-fits (length names) s r v m' (ground arith) w
          (desired_server_count-positive (length names) p) a)
      (λ _.
        maybe_install_agent-fits (length names) s r v (maybe_install_server v m')
          (maybe_install_server-fits (length names) s r v m' l a))

stop_bootstrap_timer-fits :
    (n s r : ℕ) (m : Manager) → fits n s r m ≡ true → fits n s r (stop_bootstrap_timer m) ≡ true
unfolding fits stop_bootstrap_timer
stop_bootstrap_timer-fits n s r m h = h

pub on_bootstrap_start-fits :
    (n s r : ℕ) (env : Env) (m : Manager)
    → rank (alive_member_names (observe_cluster env m)) m.config.node_name ≡ some r
    → length (alive_member_names (observe_cluster env m)) ≡ n
    → stable_server_count (observe_cluster env m) ≤ s
    → 1 ≤ n
    → fits n s r m ≡ true
    → fits n s r (on_bootstrap_start env m) ≡ true
unfolding on_bootstrap_start
on_bootstrap_start-fits n s r env m e f l p h =
    let v = observe_cluster env m in
    let m' = stop_bootstrap_timer m in
    if-elim (λ x. fits n s r x ≡ true) (not (is_state m.state bootstrap_waiting)) m _ (λ _. h)
      λ w. rw e (
        subst (λ k. fits k s r (take_role v r m') ≡ true) f
          (take_role-fits s r v m' (ground arith) l (omega arith)
            (subst (λ k. fits k s r m' ≡ true) (sym f) (stop_bootstrap_timer-fits n s r m h))))

on_join_wait_expired-fits :
    (n s r : ℕ) (env : Env) (m : Manager)
    → fits n s r m ≡ true
    → fits n s r (on_join_wait_expired env m) ≡ true
unfolding fits on_join_wait_expired
on_join_wait_expired-fits n s r env m h = ground arith

cleaned-fits :
    (n s r : ℕ) (m : Manager)
    → fits n s r m ≡ true
    → is_state m.state joining_cleanup ≡ true
    → fits n s r (
        transition joining_waiting
          (record m { joining = record (m.joining) { timer = none; cleaned = true } }))
      ≡ true
unfolding fits transition
cleaned-fits n s r m h c = ground arith

resume_join-fits :
    (n s r : ℕ) (env : Env) (name : String) (m : Manager)
    → fits n s r m ≡ true
    → fits n s r (resume_join env name m) ≡ true
unfolding resume_join
resume_join-fits n s r env name m h =
    if-elim (λ x. fits n s r x ≡ true)
      (not (str_eq name m.config.node_name) || not (is_state m.state joining_cleanup)) m _ (λ _. h)
      λ c. maybe_join_cluster-fits n s r _ _ (cleaned-fits n s r m h (ground arith))

on_forgotten-fits :
    (n s r : ℕ) (env : Env) (p : Payload) (m : Manager)
    → fits n s r m ≡ true
    → fits n s r (on_forgotten env p m) ≡ true
unfolding on_forgotten
on_forgotten-fits n s r env p m h = elim (Option-cases (read_forget_order p)) [
  | inl e ↦ rw (e, on_forgotten) h
  | inr (name, e) ↦ rw (e, on_forgotten) (resume_join-fits n s r env name m h)
]

on_forget_me-fits :
    (n s r : ℕ) (env : Env) (p : Payload) (m : Manager)
    → fits n s r m ≡ true
    → fits n s r (on_forget_me env p m) ≡ true
unfolding fits on_forget_me
on_forget_me-fits n s r env p m h = elim (Option-cases (read_forget_order p)) [
  | inl e ↦ rw (e, on_forget_me) h
  | inr (name, e) ↦ rw (e, on_forget_me) (ground arith)
]

handle_user_event-fits :
    (n s r : ℕ) (env : Env) (e : EventName) (p : Payload) (m : Manager)
    → is_ordinary (user_event e p) ≡ true
    → fits n s r m ≡ true
    → fits n s r (handle_user_event env e p m) ≡ true
unfolding fits is_ordinary handle_user_event on_bootstrap_requested
handle_user_event-fits n s r env EventName.bootstrap_requested p m o h = ground arith
handle_user_event-fits n s r env bootstrap_start p m o h = absurd (ground arith)
handle_user_event-fits n s r env rescale_convert p m o h = absurd (ground arith)
handle_user_event-fits n s r env EventName.forget_me p m o h = on_forget_me-fits n s r env p m h
handle_user_event-fits n s r env EventName.forgotten p m o h = on_forgotten-fits n s r env p m h
handle_user_event-fits n s r env (EventName.unknown_event _) p m o h = h

pub handle-fits :
    (n s r : ℕ) (env : Env) (i : Input) (m : Manager)
    → is_ordinary i ≡ true
    → ((m' : Manager) → stable_server_count (observe_cluster env m') ≤ s)
    → fits n s r m ≡ true
    → fits n s r (handle env i m) ≡ true
unfolding fits is_ordinary handle on_request_bootstrap on_confirm_bootstrap on_cancel_bootstrap
    on_bootstrap_wait_expired on_forget_retry on_forget_probed
handle-fits n s r env Input.membership_change m o l h =
    on_membership_change-fits n s r env m (l m) h
handle-fits n s r env (user_event e p) m o l h = handle_user_event-fits n s r env e p m o h
handle-fits n s r env Input.request_bootstrap m o l h = ground arith
handle-fits n s r env Input.confirm_bootstrap m o l h = ground arith
handle-fits n s r env Input.cancel_bootstrap m o l h = ground arith
handle-fits n s r env Input.bootstrap_wait_expired m o l h = ground arith
handle-fits n s r env Input.join_wait_expired m o l h = on_join_wait_expired-fits n s r env m h
handle-fits n s r env Input.forget_retry m o l h = ground arith
handle-fits n s r env Input.rescale_check m o l h =
    maybe_rescale-fits n s r env (observe_cluster env m) m h
handle-fits n s r env (forget_probed name true) m o l h = absurd (ground arith)
handle-fits n s r env (forget_probed name false) m o l h = ground arith
