-- ===== src/Cluster/Invariant/Rescaling.antt =====
-- The handlers of the joining path and of the rescaling workflow keep the invariant.
use zero_config_ha_cluster.Common.{
  ℕ, ◌≡◌, Bool, false, ◌||◌, not, ltb, ◌∙◌, subst, if-elim, List, [], ◌∷◌, some, String, str_eq,
  arith, ap, eq_iff, Option-cases, inl, inr,
}
use zero_config_ha_cluster.Node.State.{is_state, joining_cleanup, stable_server, in_cluster}
use zero_config_ha_cluster.Node.Role.{Role, stable_state, other}
use zero_config_ha_cluster.Cluster.View.{
  View, Member, find_promotion_target, find_demotion_target, lowest_named_alive_member_in,
  highest_named_alive_member_in, is_rescale_coordinator, is_etcd_membership_changing,
}
use zero_config_ha_cluster.Cluster.Failures.{durably_failed_members_names}
use zero_config_ha_cluster.Cluster.Manager.{Manager, Env, Payload, RescaleOrder}
use zero_config_ha_cluster.Cluster.Joining.{
  read_forget_order, on_join_wait_expired, on_forget_retry, resume_join, on_forgotten,
}
use zero_config_ha_cluster.Cluster.Rescale.{
  stop_rescale_timer, forget, observe_failures, start_eviction, order_conversion,
  choose_conversion_target, start_conversion, track_imbalance, schedule_rescale_check,
  check_balance, evaluate, maybe_rescale,
}
use zero_config_ha_cluster.Cluster.Invariant.Steps.{maybe_join_cluster-Inv}
use zero_config_ha_cluster.Cluster.Forgetting.{can_forget, on_forget_me, on_forget_probed}
use zero_config_ha_cluster.Cluster.Rounds.{
  obey, start_convert, read_rescale_order, on_rescale_convert,
}
use zero_config_ha_cluster.Cluster.Invariant.{Inv, edge, fits_idle}

pub on_join_wait_expired-Inv : (env : Env) (m : Manager) → Inv m → Inv (on_join_wait_expired env m)
unfolding on_join_wait_expired in_cluster edge
on_join_wait_expired-Inv env m i = ground (arith, fits_idle m.state m.operations i.matched.fitting)

pub on_forget_retry-Inv : (env : Env) (m : Manager) → Inv m → Inv (on_forget_retry env m)
unfolding on_forget_retry in_cluster edge
on_forget_retry-Inv env m i = ground arith

pub resume_join-Inv :
    (env : Env) (name : String) (m : Manager)
    → (name ≡ m.config.node_name → m.state ≡ joining_cleanup → m.operations ≡ [])
    → Inv m
    → Inv (resume_join env name m)
unfolding resume_join in_cluster edge
resume_join-Inv env name m quiet i =
    if-elim Inv (not (str_eq name m.config.node_name) || not (is_state m.state joining_cleanup)) _ _
      (λ stay. i)
      (λ go.
        let idle : m.operations ≡ [] =
          quiet ((eq_iff name m.config.node_name).0 (ground arith)) (ground arith) in
        maybe_join_cluster-Inv _ _ (ground arith))

pub on_forgotten-Inv :
    (env : Env) (p : Payload) (m : Manager)
    → (read_forget_order p ≡ some m.config.node_name
        → m.state ≡ joining_cleanup
        → m.operations ≡ [])
    → Inv m
    → Inv (on_forgotten env p m)
unfolding on_forgotten
on_forgotten-Inv env p m quiet i = elim (Option-cases (read_forget_order p)) [
  | inl e ↦ rw (e, on_forgotten) i
  | inr (name, e) ↦ rw (e, on_forgotten) (resume_join-Inv env name m (λ n. quiet (e ∙ ap some n)) i)
]

start_eviction-Inv :
    (names : List String) (m : Manager)
    → Inv m
    → m.state ≡ stable_server
    → Inv (start_eviction names m)
unfolding start_eviction in_cluster edge
start_eviction-Inv names m i h = ground (arith, fits_idle m.state m.operations i.matched.fitting)

order_conversion-Inv :
    (env : Env) (target : Member) (role : Role) (m : Manager)
    → str_eq target.name "" ≡ false
    → Inv m
    → m.state ≡ stable_server
    → Inv (order_conversion env target role m)
unfolding order_conversion in_cluster edge
order_conversion-Inv env target role m n i h =
    ground (arith, fits_idle m.state m.operations i.matched.fitting)

-- The coordinator designates a machine that has a name.
pub choose_conversion_target-named :
    (v : View) (self : String) (target : Member) (role : Role)
    → choose_conversion_target v self ≡ some (target, role)
    → str_eq target.name "" ≡ false
unfolding choose_conversion_target find_promotion_target find_demotion_target
    lowest_named_alive_member_in highest_named_alive_member_in
choose_conversion_target-named v self target role h = ground arith

start_conversion-Inv :
    (env : Env) (v : View) (m m' : Manager)
    → Inv m
    → m.state ≡ stable_server
    → start_conversion env v m ≡ some m'
    → Inv m'
unfolding start_conversion
start_conversion-Inv env v m m' i h e =
    elim (Option-cases (choose_conversion_target v m.config.node_name)) [
      | inl q ↦ absurd (ground arith)
      | inr ((target, role), q) ↦
          let p : order_conversion env target role m ≡ m' = ground arith in
          subst Inv p (
            order_conversion-Inv env target role m
              (choose_conversion_target-named v m.config.node_name target role q) i h)
    ]

-- Steps that write only the clocks and the timer of the workflow.
schedule_rescale_check-Inv :
    (deadline now : ℕ) (m : Manager) → Inv m → Inv (schedule_rescale_check deadline now m)
unfolding schedule_rescale_check
schedule_rescale_check-Inv deadline now m i = ground arith

track_imbalance-Inv : (v : View) (now : ℕ) (m : Manager) → Inv m → Inv (track_imbalance v now m).0
unfolding track_imbalance
track_imbalance-Inv v now m i = ground arith

track_imbalance-state :
    (v : View) (now : ℕ) (m : Manager) → (track_imbalance v now m).0.state ≡ m.state
unfolding track_imbalance
track_imbalance-state v now m = ground arith

observe_failures-Inv : (v : View) (now : ℕ) (m : Manager) → Inv m → Inv (observe_failures v now m)
unfolding observe_failures
observe_failures-Inv v now m i = ground arith

stop_rescale_timer-Inv : (m : Manager) → Inv m → Inv (stop_rescale_timer m)
unfolding stop_rescale_timer
stop_rescale_timer-Inv m i = ground arith

forget-Inv : (m : Manager) → Inv m → m.state ≡ stable_server → Inv (forget m)
unfolding forget
forget-Inv m i h = ground arith

check_balance-Inv :
    (env : Env) (v : View) (now next : ℕ) (m : Manager)
    → Inv m
    → m.state ≡ stable_server
    → Inv (check_balance env v now next m)
unfolding check_balance
check_balance-Inv env v now next m i h =
    let m' = (track_imbalance v now m).0 in
    let i' = track_imbalance-Inv v now m i in
    if-elim Inv (track_imbalance v now m).1 _ _
      (λ settled. elim (Option-cases (start_conversion env v m')) [
        | inl e ↦ rw (e, check_balance) (schedule_rescale_check-Inv _ now m' i')
        | inr (started, e) ↦
            rw (e, check_balance)
              (start_conversion-Inv env v m' started i' (track_imbalance-state v now m ∙ h) e)
      ])
      (λ early. schedule_rescale_check-Inv _ now m' i')

evaluate-Inv :
    (env : Env) (v : View) (now : ℕ) (m : Manager)
    → Inv m
    → m.state ≡ stable_server
    → Inv (evaluate env v now m)
unfolding evaluate
evaluate-Inv env v now m i h =
    go (durably_failed_members_names v m.rescale.failed_since m.eviction_grace now).0
  where
    next : ℕ
    next = (durably_failed_members_names v m.rescale.failed_since m.eviction_grace now).1

    go :
        (l : List String)
        → Inv (elim l [
          | [] ↦ check_balance env v now next m
          | name ∷ names ↦ start_eviction (name ∷ names) m
        ])
    go [] = check_balance-Inv env v now next m i h
    go (name ∷ names) = start_eviction-Inv (name ∷ names) m i h

pub maybe_rescale-Inv : (env : Env) (v : View) (m : Manager) → Inv m → Inv (maybe_rescale env v m)
unfolding maybe_rescale
maybe_rescale-Inv env v m i =
    let now = env.now m.effects in
    let m' = observe_failures v now m in
    let i' = observe_failures-Inv v now m i in
    if-elim Inv (not m.config.rescale_enabled) _ _ (λ off. i)
      λ on.
        if-elim Inv (not (is_state m'.state stable_server)) _ _ (λ other. i')
          λ stable.
            let h : m'.state ≡ stable_server = ground arith in
            if-elim Inv (not (is_rescale_coordinator v m'.config.node_name)) _ _
              (λ passive. forget-Inv m' i' h)
              λ elected.
                if-elim Inv (ltb now m'.rescale.retry_not_before) _ _ (λ recent. i')
                  λ due.
                    if-elim Inv (is_etcd_membership_changing v) _ _
                      (λ changing. stop_rescale_timer-Inv m' i')
                      λ calm. evaluate-Inv env v now m' i' h

pub on_forget_me-Inv : (env : Env) (p : Payload) (m : Manager) → Inv m → Inv (on_forget_me env p m)
unfolding on_forget_me in_cluster edge
on_forget_me-Inv env p m i = ground arith

pub on_forget_probed-Inv :
    (env : Env) (name : String) (found : Bool) (m : Manager)
    → str_eq name "" ≡ false
    → Inv m
    → Inv (on_forget_probed env name found m)
unfolding on_forget_probed can_forget in_cluster edge
on_forget_probed-Inv env name found m h i =
    ground (arith, fits_idle m.state m.operations i.matched.fitting)

obey-Inv : (order : RescaleOrder) (m : Manager) → Inv m → Inv (obey order m)
unfolding obey start_convert in_cluster edge stable_state other
obey-Inv order m i = ground (arith, fits_idle m.state m.operations i.matched.fitting)

pub on_rescale_convert-Inv : (p : Payload) (m : Manager) → Inv m → Inv (on_rescale_convert p m)
unfolding on_rescale_convert
on_rescale_convert-Inv p m i = elim (Option-cases (read_rescale_order p)) [
  | inl e ↦ rw (e, on_rescale_convert) i
  | inr (order, e) ↦ rw (e, on_rescale_convert) (obey-Inv order m i)
]
