-- ===== src/Admin/Actions.antt =====
-- What antsd/internal/admin/server.go shows and answers.
use zero_config_ha_cluster.Common.{
  ℕ, ◌≡◌, refl, ap, ◌∙◌, ◌⊎◌, inl, inr, Bool, false, not, List, [], ◌∷◌, String, str_eq,
  if◌then◌else◌, any, count_if, IsOrdered, sort_by-IsOrdered, count_if-sort_by, any-sort_by, arith,
  if-elim, Bool-cases, Option-cases, none, some,
}
use zero_config_ha_cluster.Node.State.{is_state, discovering, bootstrap_confirm}
use zero_config_ha_cluster.Cluster.View.{Member, find_existing_k3s_cluster_member}
use zero_config_ha_cluster.Cluster.Manager.{
  Manager, Env, transition, broadcast, observe_cluster, bootstrap_requested, empty, send_user_event,
}
use zero_config_ha_cluster.Cluster.Bootstrap.{
  on_request_bootstrap, on_confirm_bootstrap, on_cancel_bootstrap, ActionResult, accepted, conflict,
  failed,
}
use zero_config_ha_cluster.Cluster.Running.{handle_command}
use zero_config_ha_cluster.Admin.{
  command_of_action, tags_without_state, other_tags, Action, request_bootstrap, confirm_bootstrap,
  cancel_bootstrap, Shutdown, running, before_queued, while_waiting, run_action, answer,
  handle_action,
}

tags_without_state-any :
    (tags : List (String × String))
    → any (λ t. str_eq t.key "state") (tags_without_state tags) ≡ false
unfolding tags_without_state
tags_without_state-any [] = refl
tags_without_state-any ((k, v) ∷ tags) = ground (arith, tags_without_state-any tags)

tags_without_state-count :
    (p : String → String → Bool) (tags : List (String × String))
    → count_if (λ t. p t.key t.value) (tags_without_state tags)
      ≡ count_if (λ (kv : String × String). if str_eq kv.0 "state" then false else p kv.0 kv.1) tags
unfolding tags_without_state
tags_without_state-count p [] = refl
tags_without_state-count p ((k, v) ∷ tags) = ground (arith, tags_without_state-count p tags)

-- The tags that the dashboard lists are ordered by their keys, none of them is the state, and each
-- other one of the member is there as often as in the member's tags.
pub other_tags-members :
    (m : Member) (p : String → String → Bool)
    → IsOrdered (λ t. t.key) (other_tags m)
      × (any (λ t. str_eq t.key "state") (other_tags m) ≡ false)
      × (count_if (λ t. p t.key t.value) (other_tags m)
          ≡ count_if
              (λ (kv : String × String). if str_eq kv.0 "state" then false else p kv.0 kv.1)
              m.tags)
unfolding other_tags
other_tags-members m p = (
  sort_by-IsOrdered (λ t. t.key) (tags_without_state m.tags),
  any-sort_by (λ t. t.key) (λ t. str_eq t.key "state") (tags_without_state m.tags)
      ∙ tags_without_state-any m.tags,
  count_if-sort_by (λ t. t.key) (λ t. p t.key t.value) (tags_without_state m.tags)
      ∙ tags_without_state-count p m.tags,
)

-- What an action that is accepted found, and what it did.
abbrev pub WasAccepted : Env → Action → Manager → Manager → Type 0
WasAccepted env request_bootstrap m m' =
    (m.state ≡ discovering)
    × (find_existing_k3s_cluster_member (observe_cluster env m) ≡ none)
    × (m'.state ≡ bootstrap_confirm)
WasAccepted env confirm_bootstrap m m' =
    (m.state ≡ bootstrap_confirm)
    × (m'.state ≡ bootstrap_confirm)
    × (m'.effects ≡ send_user_event bootstrap_requested empty ∷ m.effects)
WasAccepted env cancel_bootstrap m m' =
    (m.state ≡ bootstrap_confirm) × (m'.state ≡ discovering) × (m'.operations ≡ m.operations)

abbrev Answers : Env → Action → Manager → Manager × ActionResult → Type 0
Answers env a m r =
    ((r.1 ≡ conflict) × (r.0 ≡ m))
    ⊎ (((r.1 ≡ accepted) × WasAccepted env a m r.0)
        ⊎ ((r.1 ≡ failed) × (a ≡ confirm_bootstrap) × (r.0.state ≡ m.state)))

on_request_bootstrap-Answers :
    (env : Env) (m : Manager) → Answers env request_bootstrap m (on_request_bootstrap env m)
unfolding on_request_bootstrap transition
on_request_bootstrap-Answers env m =
    if-elim (Answers env request_bootstrap m) (not (is_state m.state discovering)) _ _
      (λ _. inl (refl, refl))
      λ s. elim (Option-cases (find_existing_k3s_cluster_member (observe_cluster env m))) [
        | inl e ↦ rw (e, on_request_bootstrap) (inr (inl (refl, (ground arith, refl, refl))))
        | inr (x, e) ↦ rw (e, on_request_bootstrap) (inl (refl, refl))
      ]

on_confirm_bootstrap-Answers :
    (env : Env) (m : Manager) → Answers env confirm_bootstrap m (on_confirm_bootstrap env m)
unfolding on_confirm_bootstrap broadcast
on_confirm_bootstrap-Answers env m =
    if-elim (Answers env confirm_bootstrap m) (not (is_state m.state bootstrap_confirm)) _ _
      (λ _. inl (refl, refl))
      λ s. elim (Bool-cases (env.sends m.effects)) [
        | inl e ↦ rw e (inr (inl (refl, (ground arith, ground arith, refl))))
        | inr e ↦ rw e (inr (inr (refl, refl, refl)))
      ]

on_cancel_bootstrap-Answers :
    (env : Env) (m : Manager) → Answers env cancel_bootstrap m (on_cancel_bootstrap m)
unfolding on_cancel_bootstrap transition
on_cancel_bootstrap-Answers env m =
    if-elim (Answers env cancel_bootstrap m) (not (is_state m.state bootstrap_confirm)) _ _
      (λ _. inl (refl, refl)) (λ s. inr (inl (refl, (ground arith, refl, refl))))

run_action-Answers : (env : Env) (a : Action) (m : Manager) → Answers env a m (run_action env a m)
unfolding run_action
run_action-Answers env request_bootstrap m = on_request_bootstrap-Answers env m
run_action-Answers env confirm_bootstrap m = on_confirm_bootstrap-Answers env m
run_action-Answers env cancel_bootstrap m = on_cancel_bootstrap-Answers env m

-- How a button is answered: while antsd runs, as the action ended; while it shuts down, with an
-- error, whether the action was done or not.
abbrev pub IsResponse : Env → Shutdown → Action → Manager → Manager × ℕ → Type 0
IsResponse env running a m r =
    ((r.1 ≡ 409) × (r.0 ≡ m))
    ⊎ (((r.1 ≡ 303) × WasAccepted env a m r.0)
        ⊎ ((r.1 ≡ 500) × (a ≡ confirm_bootstrap) × (r.0.state ≡ m.state)))
IsResponse env before_queued a m r = (r.1 ≡ 500) × (r.0 ≡ m)
IsResponse env while_waiting a m r =
    (r.1 ≡ 500)
    × ((r.0 ≡ m) ⊎ (WasAccepted env a m r.0 ⊎ ((a ≡ confirm_bootstrap) × (r.0.state ≡ m.state))))

-- While antsd runs, a button that is answered with a conflict changed nothing, and one that is
-- answered with a redirection was pressed in the state that it belongs to, and has moved the machine
-- to the confirmation where no member belongs to a cluster, back to the discovery, or has sent the
-- request to every machine; only the confirmation can fail otherwise, and leaves the state as it is.
-- While antsd shuts down, every button is answered with an error: nothing has changed if the command
-- was not queued, and the action may have been done if it was.
pub handle_action-answer :
    (env : Env) (s : Shutdown) (a : Action) (m : Manager)
    → IsResponse env s a m (handle_action env s a m)
unfolding handle_action
handle_action-answer env running a m = elim (run_action-Answers env a m) [
  | inl (c, e) ↦ inl (ap answer c, e)
  | inr (inl (c, w)) ↦ inr (inl (ap answer c, w))
  | inr (inr (c, e, s)) ↦ inr (inr (ap answer c, e, s))
]
handle_action-answer env before_queued a m = (refl, refl)
handle_action-answer env while_waiting a m = elim (run_action-Answers env a m) [
  | inl (c, e) ↦ (refl, inl e)
  | inr (inl (c, w)) ↦ (refl, inr (inl w))
  | inr (inr (c, e, s)) ↦ (refl, inr (inr (e, s)))
]

-- A button is the command of its action: what the run loop does and answers when it takes that command
-- is what the action does and answers.
pub handle_command-action :
    (env : Env) (a : Action) (m : Manager)
    → handle_command env (command_of_action a) m
      ≡ ((run_action env a m).0, some (run_action env a m).1)
unfolding handle_command run_action command_of_action
handle_command-action env request_bootstrap m = refl
handle_command-action env confirm_bootstrap m = refl
handle_command-action env cancel_bootstrap m = refl
