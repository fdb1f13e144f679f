-- ===== src/Cluster/Invariant/Published.antt =====
-- The tag that the other nodes read of a node, where `SetState` may fail: antsd/internal/cluster/manager.go
-- only logs that, and goes on.
use zero_config_ha_cluster.Common.{
  ◌≡◌, refl, subst, ◌⊎◌, inl, inr, Bool, true, false, not, ◌||◌, List, [], ◌∷◌, if◌then◌else◌,
  arith, Bool-cases,
}
use zero_config_ha_cluster.Node.State.{State, is_state, starting}
use zero_config_ha_cluster.Cluster.Manager.{
  Manager, Effect, set_state, send_user_event, save_state, remove_failed_node, probe_node,
}
use zero_config_ha_cluster.Cluster.Invariant.{last_tag}

-- Which calls of `SetState` return an error, each by the effects before it, and which of those have
-- changed the tag all the same.
pub record Publishing : Type 0 where
  pub fails : List Effect → Bool
  pub sets_anyway : List Effect → Bool

-- The tag that the other nodes read, `starting` before any call.
unfoldable pub published_tag : Publishing → List Effect → State
published_tag p [] = starting
published_tag p (set_state s ∷ es) =
    let older = published_tag p es in if not (p.fails es) || p.sets_anyway es then s else older
published_tag p (send_user_event _ _ ∷ es) = published_tag p es
published_tag p (save_state _ ∷ es) = published_tag p es
published_tag p (remove_failed_node _ ∷ es) = published_tag p es
published_tag p (probe_node _ ∷ es) = published_tag p es

-- The last call of `SetState` returned an error.
unfoldable pub last_call_failed : Publishing → List Effect → Bool
last_call_failed p [] = false
last_call_failed p (set_state _ ∷ es) = p.fails es
last_call_failed p (send_user_event _ _ ∷ es) = last_call_failed p es
last_call_failed p (save_state _ ∷ es) = last_call_failed p es
last_call_failed p (remove_failed_node _ ∷ es) = last_call_failed p es
last_call_failed p (probe_node _ ∷ es) = last_call_failed p es

-- The state is the first one, or was handed to `SetState`.
unfoldable pub was_handed : State → List Effect → Bool
was_handed s [] = is_state s starting
was_handed s (set_state t ∷ es) = is_state s t || was_handed s es
was_handed s (send_user_event _ _ ∷ es) = was_handed s es
was_handed s (save_state _ ∷ es) = was_handed s es
was_handed s (remove_failed_node _ ∷ es) = was_handed s es
was_handed s (probe_node _ ∷ es) = was_handed s es

pub published_tag-last_tag :
    (p : Publishing) (es : List Effect)
    → (published_tag p es ≡ last_tag es) ⊎ (last_call_failed p es ≡ true)
unfolding published_tag last_call_failed
published_tag-last_tag p [] = inl refl
published_tag-last_tag p (set_state s ∷ es) = elim (Bool-cases (p.fails es)) [
  | inl f ↦ inr f
  | inr f ↦ inl (ground arith)
]
published_tag-last_tag p (send_user_event n q ∷ es) = published_tag-last_tag p es
published_tag-last_tag p (save_state q ∷ es) = published_tag-last_tag p es
published_tag-last_tag p (remove_failed_node n ∷ es) = published_tag-last_tag p es
published_tag-last_tag p (probe_node n ∷ es) = published_tag-last_tag p es

is_state_refl : (s : State) → is_state s s ≡ true
is_state_refl s = ground arith

pub published_tag-was_handed :
    (p : Publishing) (es : List Effect) → was_handed (published_tag p es) es ≡ true
unfolding published_tag was_handed
published_tag-was_handed p [] = is_state_refl starting
published_tag-was_handed p (set_state s ∷ es) =
    ground (arith, is_state_refl s, published_tag-was_handed p es)
published_tag-was_handed p (send_user_event n q ∷ es) = published_tag-was_handed p es
published_tag-was_handed p (save_state q ∷ es) = published_tag-was_handed p es
published_tag-was_handed p (remove_failed_node n ∷ es) = published_tag-was_handed p es
published_tag-was_handed p (probe_node n ∷ es) = published_tag-was_handed p es

pub published-or_failed :
    (p : Publishing) (m : Manager)
    → last_tag m.effects ≡ m.state
    → (published_tag p m.effects ≡ m.state) ⊎ (last_call_failed p m.effects ≡ true)
published-or_failed p m e =
    subst (λ s. (published_tag p m.effects ≡ s) ⊎ (last_call_failed p m.effects ≡ true)) e
      (published_tag-last_tag p m.effects)
