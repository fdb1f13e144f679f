-- ===== src/K3s/Waiting.antt =====
-- antsd/internal/k3s/exec.go: the wait for a readiness probe. The probes and the cancellation of the
-- context are given by the number of the attempt; the loop of the source has no bound.
use zero_config_ha_cluster.Common.{
  ℕ, zero, suc, ◌+◌, ◌-◌, ◌/◌, ◌%◌, ◌<◌, ◌≡◌, refl, ap, subst, ◌∙◌, Bool, true, false, ◌||◌, Option,
  none, some, ◌==◌, if◌then◌else◌, arith, sym, Bool-cases, inl, inr,
}

-- `readyLogEvery`.
abbrev pub ready_log_every : ℕ
ready_log_every = 20

-- What the outside answers at each attempt: whether the probe succeeds, and whether the `select`
-- behind it finds the context cancelled.
pub record Probes : Type 0 where
  pub succeeds : ℕ → Bool
  pub canceled : ℕ → Bool

-- The end of the wait: ready, or given up; and how many warnings were logged before it.
pub record Wait : Type 0 where
  pub ready : Bool
  pub attempts : ℕ
  pub warnings : ℕ

-- The loop of `pollUntilReady`, from an attempt on; `none` is a lack of fuel.
unfoldable pub poll_from : ℕ → Probes → ℕ → ℕ → Option Wait
poll_from zero p attempt warnings = none
poll_from (suc fuel) p attempt warnings =
    let warned = if attempt % ready_log_every == 0 then suc warnings else warnings in
    let rest = poll_from fuel p (suc attempt) warned in
    if p.succeeds attempt
    then some (record { ready = true; attempts = attempt; warnings = warnings })
    else if p.canceled attempt
    then some (record { ready = false; attempts = attempt; warnings = warned })
    else rest

-- `pollUntilReady`.
unfoldable pub poll_until_ready : ℕ → Probes → Option Wait
unfolding poll_from
poll_until_ready fuel p = poll_from fuel p 1 0

-- No attempt from `attempt` on ends the wait, for a number of them.
abbrev pub goes_on : Probes → ℕ → ℕ → Bool
goes_on p attempt zero = true
goes_on p attempt (suc k) =
    let rest = goes_on p (suc attempt) k in
    if p.succeeds attempt || p.canceled attempt then false else rest

-- The end of the wait at an attempt: a warning for every twentieth probe that failed.
abbrev pub end_at : Probes → ℕ → Wait
end_at p attempt = record {
  ready = p.succeeds attempt;
  attempts = attempt;
  warnings = (if p.succeeds attempt then attempt - 1 else attempt) / ready_log_every;
}

next_warning :
    (a : ℕ)
    → (if suc a % ready_log_every == 0 then suc (a / ready_log_every) else a / ready_log_every)
      ≡ suc a / ready_log_every
next_warning a = ground arith

poll_from-now :
    (fuel a : ℕ) (p : Probes)
    → (p.succeeds (suc a) || p.canceled (suc a)) ≡ true
    → poll_from (suc fuel) p (suc a) (a / ready_log_every) ≡ some (end_at p (suc a))
unfolding poll_from
poll_from-now fuel a p e = rw (next_warning a) (elim (Bool-cases (p.succeeds (suc a))) [
  | inl s ↦ rw s (
      ap (λ n. some (record { ready = true; attempts = suc a; warnings = n / ready_log_every }))
        (omega arith))
  | inr s ↦ let c : p.canceled (suc a) ≡ true = ground arith in rw (s, c) refl
])

poll_from-later :
    (fuel a : ℕ) (p : Probes)
    → (p.succeeds (suc a) || p.canceled (suc a)) ≡ false
    → poll_from (suc fuel) p (suc a) (a / ready_log_every)
      ≡ poll_from fuel p (suc (suc a)) (suc a / ready_log_every)
unfolding poll_from
poll_from-later fuel a p e =
    let s : p.succeeds (suc a) ≡ false = ground arith in
    let c : p.canceled (suc a) ≡ false = ground arith in rw (s, c, next_warning a) refl

poll_from-end :
    (fuel k a t : ℕ) (p : Probes)
    → goes_on p (suc a) k ≡ true
    → t ≡ suc a + k
    → (p.succeeds t || p.canceled t) ≡ true
    → k < fuel
    → poll_from fuel p (suc a) (a / ready_log_every) ≡ some (end_at p t)
poll_from-end zero k a t p h q e l = absurd (omega arith)
poll_from-end (suc fuel) zero a t p h q e l =
    let r : t ≡ suc a = omega (arith, q) in
    subst (λ x. poll_from (suc fuel) p (suc a) (a / ready_log_every) ≡ some (end_at p x)) (sym r)
      (poll_from-now fuel a p (subst (λ x. (p.succeeds x || p.canceled x) ≡ true) r e))
poll_from-end (suc fuel) (suc k) a t p h q e l =
    poll_from-later fuel a p (ground arith)
    ∙ poll_from-end fuel k (suc a) t p (ground arith) (omega (arith, q)) e (omega arith)

-- Where the first attempt that succeeds or finds the context cancelled has the number k + 1, the
-- wait ends at it with any fuel above k, and it is ready exactly if that probe succeeded.
pub poll_until_ready-end :
    (fuel k : ℕ) (p : Probes)
    → goes_on p 1 k ≡ true
    → (p.succeeds (suc k) || p.canceled (suc k)) ≡ true
    → k < fuel
    → poll_until_ready fuel p ≡ some (end_at p (suc k))
unfolding poll_until_ready
poll_until_ready-end fuel k p h e l = poll_from-end fuel k 0 (suc k) p h (omega arith) e l
