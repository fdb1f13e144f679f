-- ===== src/Cluster/Keeping/Rescaling.antt =====
-- The handlers of antsd/internal/cluster keep what is asked: those of the rescaling and of the
-- forget-me workflow.
use zero_config_ha_cluster.Common.{
  ℕ, ◌≡◌, subst, Bool, true, not, ◌||◌, List, [], ◌∷◌, some, String, str_eq, ltb, arith, if-elim,
  Option-cases, inl, inr, false,
}
use zero_config_ha_cluster.Node.State.{is_state, stable_server}
use zero_config_ha_cluster.Node.Role.{other, stable_state}
use zero_config_ha_cluster.Cluster.View.{View, is_rescale_coordinator, is_etcd_membership_changing}
use zero_config_ha_cluster.Cluster.Failures.{durably_failed_members_names}
use zero_config_ha_cluster.Cluster.Manager.{
  Manager, Env, Operation, Payload, RescaleOrder, RescaleProgress, send_user_event, rescale_convert,
  probe_node, observe_cluster,
}
use zero_config_ha_cluster.Cluster.Joining.{read_forget_order}
use zero_config_ha_cluster.Cluster.Rescale.{
  stop_rescale_timer, forget, schedule_rescale_check, reset_progress, start_coordination_round,
  start_eviction, order_conversion, start_conversion, choose_conversion_target, track_imbalance,
  check_balance, evaluate, observe_failures, maybe_rescale,
}
use zero_config_ha_cluster.Cluster.Forgetting.{on_forget_me, on_forget_probed, can_forget}
use zero_config_ha_cluster.Cluster.Rounds.{
  on_rescale_convert, read_rescale_order, obey, start_convert,
}
use zero_config_ha_cluster.Cluster.Keeping.{Asked, keeps, spares, orders}
use zero_config_ha_cluster.Cluster.Keeping.Handlers.{unasked, named}

module _ (k : Asked) where
  -- The progress of the rescaling workflow does not matter.
  rescale-keeps :
      (r : RescaleProgress) (m : Manager)
      → keeps k m ≡ true
      → keeps k (record m { rescale = r }) ≡ true
  unfolding keeps
  rescale-keeps r m h = h

  start_coordination_round-keeps :
      (op : Operation) (m : Manager)
      → keeps k m ≡ true
      → keeps k (start_coordination_round op m) ≡ true
  unfolding keeps start_coordination_round
  start_coordination_round-keeps op m h = ground arith

  start_conversion-keeps :
      (env : Env) (v : View) (m m' : Manager)
      → keeps k m ≡ true
      → start_conversion env v m ≡ some m'
      → keeps k m' ≡ true
  unfolding start_conversion order_conversion reset_progress
  start_conversion-keeps env v m m' h e =
      elim (Option-cases (choose_conversion_target v m.config.node_name)) [
        | inl q ↦ absurd (ground arith)
        | inr ((target, role), q) ↦
            let p : order_conversion env target role m ≡ m' = ground arith in
            subst (λ x. keeps k x ≡ true) p
              (start_coordination_round-keeps _ _ (rescale-keeps _ m h))
      ]

  track_imbalance-keeps :
      (v : View) (now : ℕ) (m : Manager)
      → keeps k m ≡ true
      → keeps k (track_imbalance v now m).0 ≡ true
  unfolding keeps track_imbalance
  track_imbalance-keeps v now m h = ground arith

  check_balance-keeps :
      (env : Env) (v : View) (now next : ℕ) (m : Manager)
      → keeps k m ≡ true
      → keeps k (check_balance env v now next m) ≡ true
  unfolding check_balance track_imbalance schedule_rescale_check
  check_balance-keeps env v now next m h =
      let m' = (track_imbalance v now m).0 in
      let h' : keeps k m' ≡ true = track_imbalance-keeps v now m h in
      if-elim (λ x. keeps k x ≡ true) (track_imbalance v now m).1 _ _
        (λ settled. elim (Option-cases (start_conversion env v m')) [
          | inl e ↦ rw (e, check_balance) (rescale-keeps _ m' h')
          | inr (started, e) ↦ rw (e, check_balance) (start_conversion-keeps env v m' started h' e)
        ])
        (λ early. rescale-keeps _ m' h')

  evaluate-keeps :
      (env : Env) (v : View) (now : ℕ) (m : Manager)
      → keeps k m ≡ true
      → keeps k (evaluate env v now m) ≡ true
  unfolding evaluate start_eviction reset_progress
  evaluate-keeps env v now m h =
      go (durably_failed_members_names v m.rescale.failed_since m.eviction_grace now).0
    where
      next : ℕ
      next = (durably_failed_members_names v m.rescale.failed_since m.eviction_grace now).1

      go :
          (l : List String)
          → keeps k (elim l [
            | [] ↦ check_balance env v now next m
            | name ∷ names ↦ start_eviction (name ∷ names) m
          ])
            ≡ true
      go [] = check_balance-keeps env v now next m h
      go (name ∷ names) = start_coordination_round-keeps _ _ (rescale-keeps _ m h)

  pub maybe_rescale-keeps :
      (env : Env) (v : View) (m : Manager)
      → keeps k m ≡ true
      → keeps k (maybe_rescale env v m) ≡ true
  unfolding maybe_rescale observe_failures forget stop_rescale_timer
  maybe_rescale-keeps env v m h =
      let now = env.now m.effects in
      let m' = observe_failures v now m in
      let h' : keeps k m' ≡ true = rescale-keeps _ m h in
      let P : Manager → Type 0 = λ x. keeps k x ≡ true in
      if-elim P (not m.config.rescale_enabled) _ _ (λ off. h)
        λ on.
          if-elim P (not (is_state m'.state stable_server)) _ _ (λ other. h')
            λ stable.
              if-elim P (not (is_rescale_coordinator v m'.config.node_name)) _ _
                (λ passive. rescale-keeps _ m' h')
                λ elected.
                  if-elim P (ltb now m'.rescale.retry_not_before) _ _ (λ recent. h')
                    λ due.
                      if-elim P (is_etcd_membership_changing v) _ _
                        (λ changing. rescale-keeps _ m' h') λ calm. evaluate-keeps env v now m' h'

  probing-keeps :
      (name : String) (m : Manager)
      → keeps k m ≡ true
      → keeps k (record m { effects = probe_node name ∷ m.effects }) ≡ true
  unfolding keeps
  probing-keeps name m h = ground arith

  pub on_forget_me-keeps :
      (env : Env) (p : Payload) (m : Manager)
      → keeps k m ≡ true
      → keeps k (on_forget_me env p m) ≡ true
  unfolding on_forget_me
  on_forget_me-keeps env p m h = elim (Option-cases (read_forget_order p)) [
    | inl e ↦ rw (e, on_forget_me) h
    | inr (name, e) ↦
        rw (e, on_forget_me)
          (if-elim (λ x. keeps k x ≡ true) (can_forget (observe_cluster env m) name m) _ _
            (λ _. probing-keeps name m h) (λ _. h))
  ]

  pub on_forget_probed-keeps :
      (env : Env) (name : String) (found : Bool) (m : Manager)
      → keeps k m ≡ true
      → keeps k (on_forget_probed env name found m) ≡ true
  unfolding keeps on_forget_probed
  on_forget_probed-keeps env name found m h = ground arith

  converting-keeps :
      (order : RescaleOrder) (m : Manager)
      → k.unordered ≡ false
      → keeps k m ≡ true
      → keeps k (start_convert order m) ≡ true
  unfolding keeps start_convert
  converting-keeps order m u h = ground arith

  obey-keeps :
      (order : RescaleOrder) (m : Manager)
      → (not k.unordered || not (str_eq order.target k.name)) ≡ true
      → keeps k m ≡ true
      → keeps k (obey order m) ≡ true
  unfolding obey
  obey-keeps order m u h =
      let P : Manager → Type 0 = λ x. keeps k x ≡ true in
      if-elim P (not (str_eq order.target m.config.node_name)) _ _ (λ _. h)
        λ own.
          let c =
            unasked k.unordered order.target m.config.node_name k.name u (ground arith)
              (named k m h) in
          if-elim P (not (is_state m.state (stable_state (other order.role)))) _ _ (λ _. h)
            λ _. elim (Option-cases m.persisted_state) [
              | inl e ↦ rw e h
              | inr (x, e) ↦ rw e (
                  if-elim P (str_eq order.join_ip "") m _ (λ _. h)
                    (λ _. converting-keeps order m c h))
            ]

  pub on_rescale_convert-keeps :
      (p : Payload) (m : Manager)
      → spares k (send_user_event rescale_convert p) ≡ true
      → keeps k m ≡ true
      → keeps k (on_rescale_convert p m) ≡ true
  unfolding on_rescale_convert spares orders
  on_rescale_convert-keeps p m u h = elim (Option-cases (read_rescale_order p)) [
    | inl e ↦ rw (e, on_rescale_convert) h
    | inr (order, e) ↦ rw (e, on_rescale_convert) (obey-keeps order m (ground arith) h)
  ]
