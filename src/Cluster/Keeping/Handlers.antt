-- ===== src/Cluster/Keeping/Handlers.antt =====
-- The handlers of antsd/internal/cluster keep what is asked: those of the bootstrap and of the joining
-- path.
use zero_config_ha_cluster.Common.{
  ◌≡◌, Bool, true, not, ◌||◌, none, String, str_eq, arith, if-elim, Option-cases, inl, inr, false,
  ◌∙◌, eq_iff,
}
use zero_config_ha_cluster.Node.State.{is_state, joining_cleanup, joining_waiting}
use zero_config_ha_cluster.Cluster.View.{View}
use zero_config_ha_cluster.Cluster.Manager.{
  Manager, Env, Payload, transition, send_user_event, forgotten,
}
use zero_config_ha_cluster.Cluster.Joining.{
  maybe_start_joining_path, maybe_join_cluster, on_join_wait_expired, on_forget_retry, on_forgotten,
  resume_join, read_forget_order, send_forget_me,
}
use zero_config_ha_cluster.Cluster.Bootstrap.{
  on_request_bootstrap, on_cancel_bootstrap, maybe_install_server, maybe_install_agent,
}
use zero_config_ha_cluster.Cluster.Keeping.{Asked, keeps, spares, frees}

-- A flag that is set if the text is not the third one, when it is the second one and that the third.
pub unasked :
    (b : Bool) (a m c : String)
    → (not b || not (str_eq a c)) ≡ true
    → str_eq a m ≡ true
    → str_eq m c ≡ true
    → b ≡ false
unasked b a m c u e q = ground (arith, (eq_iff a c).1 ((eq_iff a m).0 e ∙ (eq_iff m c).0 q))

module _ (k : Asked) where
  pub maybe_start_joining_path-keeps :
      (v : View) (m : Manager) → keeps k m ≡ true → keeps k (maybe_start_joining_path v m) ≡ true
  unfolding keeps maybe_start_joining_path
  maybe_start_joining_path-keeps v m h = ground arith

  pub maybe_join_cluster-keeps :
      (v : View) (m : Manager) → keeps k m ≡ true → keeps k (maybe_join_cluster v m) ≡ true
  unfolding keeps maybe_join_cluster
  maybe_join_cluster-keeps v m h = ground arith

  pub maybe_install_server-keeps :
      (v : View) (m : Manager) → keeps k m ≡ true → keeps k (maybe_install_server v m) ≡ true
  unfolding keeps maybe_install_server
  maybe_install_server-keeps v m h = ground arith

  pub maybe_install_agent-keeps :
      (v : View) (m : Manager) → keeps k m ≡ true → keeps k (maybe_install_agent v m) ≡ true
  unfolding keeps maybe_install_agent
  maybe_install_agent-keeps v m h = ground arith

  pub on_request_bootstrap-keeps :
      (env : Env) (m : Manager) → keeps k m ≡ true → keeps k (on_request_bootstrap env m).0 ≡ true
  unfolding keeps on_request_bootstrap
  on_request_bootstrap-keeps env m h = ground arith

  pub on_cancel_bootstrap-keeps :
      (m : Manager) → keeps k m ≡ true → keeps k (on_cancel_bootstrap m).0 ≡ true
  unfolding keeps on_cancel_bootstrap
  on_cancel_bootstrap-keeps m h = ground arith

  pub on_join_wait_expired-keeps :
      (env : Env) (m : Manager) → keeps k m ≡ true → keeps k (on_join_wait_expired env m) ≡ true
  unfolding keeps on_join_wait_expired
  on_join_wait_expired-keeps env m h = ground arith

  pub send_forget_me-keeps :
      (env : Env) (m : Manager) → keeps k m ≡ true → keeps k (send_forget_me env m) ≡ true
  unfolding keeps send_forget_me
  send_forget_me-keeps env m h = ground arith

  pub on_forget_retry-keeps :
      (env : Env) (m : Manager) → keeps k m ≡ true → keeps k (on_forget_retry env m) ≡ true
  unfolding keeps on_forget_retry
  on_forget_retry-keeps env m h = ground arith

  pub named : (m : Manager) → keeps k m ≡ true → str_eq m.config.node_name k.name ≡ true
  unfolding keeps
  named m h = ground arith

  cleaned-keeps :
      (m : Manager)
      → k.uncleared ≡ false
      → keeps k m ≡ true
      → keeps k (
          transition joining_waiting
            (record m { joining = record (m.joining) { timer = none; cleaned = true } }))
        ≡ true
  unfolding keeps transition
  cleaned-keeps m u h = ground arith

  resume_join-keeps :
      (env : Env) (name : String) (m : Manager)
      → (not k.uncleared || not (str_eq name k.name)) ≡ true
      → keeps k m ≡ true
      → keeps k (resume_join env name m) ≡ true
  unfolding resume_join
  resume_join-keeps env name m u h =
      if-elim (λ x. keeps k x ≡ true)
        (not (str_eq name m.config.node_name) || not (is_state m.state joining_cleanup)) m _
        (λ _. h)
        λ go. maybe_join_cluster-keeps _ _ (
          cleaned-keeps m
            (unasked k.uncleared name m.config.node_name k.name u (ground arith) (named m h)) h)

  pub on_forgotten-keeps :
      (env : Env) (p : Payload) (m : Manager)
      → spares k (send_user_event forgotten p) ≡ true
      → keeps k m ≡ true
      → keeps k (on_forgotten env p m) ≡ true
  unfolding on_forgotten spares frees
  on_forgotten-keeps env p m u h = elim (Option-cases (read_forget_order p)) [
    | inl e ↦ rw (e, on_forgotten) h
    | inr (name, e) ↦ rw (e, on_forgotten) (resume_join-keeps env name m (ground arith) h)
  ]
