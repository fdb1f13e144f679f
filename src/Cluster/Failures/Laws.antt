-- ===== src/Cluster/Failures/Laws.antt =====
-- What the failure clock holds, and which members it makes evictable.
use zero_config_ha_cluster.Common.{
  ℕ, ◌+◌, ◌≤◌, ◌<◌, ◌≡◌, refl, sym, ap, ◌∙◌, true, ◌&&◌, ◌||◌, ◌⊎◌, inl, inr, List, [], ◌∷◌, ◌++◌,
  Option, none, some, String, str_eq, leb, if◌then◌else◌, contains, eq_iff, arith, Bool-cases,
}
use zero_config_ha_cluster.Node.Sorting.{contains-sort}
use zero_config_ha_cluster.Cluster.View.{View, failed_members_names}
use zero_config_ha_cluster.Cluster.Failures.{
  FailureClock, lookup, since_or, deadline_of, round_evictable, round_next, durably_from,
  durably_failed_members_names, enter_failure, enter_failures, delete_recovered, track_failures,
}

contains-append :
    (xs ys : List String) (a : String) → contains (xs ++ ys) a ≡ (contains xs a || contains ys a)
contains-append [] ys a = refl
contains-append (x ∷ xs) ys a = ground (arith, contains-append xs ys a)

durably_from-contains :
    (clock : FailureClock) (grace now : ℕ) (names evictable : List String) (next : ℕ) (a : String)
    → contains (durably_from clock grace now names evictable next).0 a
      ≡ (contains evictable a || (contains names a && leb (deadline_of clock grace now a) now))
unfolding durably_from
durably_from-contains clock grace now [] ev next a = ground arith
durably_from-contains clock grace now (n ∷ ns) ev next a = ground (
  arith,
  eq_iff n a,
  contains-append ev (n ∷ []) a,
  durably_from-contains clock grace now ns
      (round_evictable (deadline_of clock grace now n) now n ev)
      (round_next (deadline_of clock grace now n) now next) a,
)

-- A name is reported evictable exactly when its member is failed and has been so for the grace
-- period, by the clock; a failed member that the clock does not know counts from now.
pub evictable_lem :
    (v : View) (clock : FailureClock) (grace now : ℕ) (a : String)
    → contains (durably_failed_members_names v clock grace now).0 a
      ≡ (contains (failed_members_names v) a && leb (since_or (lookup a clock) now + grace) now)
unfolding durably_failed_members_names deadline_of
evictable_lem v clock grace now a =
    contains-sort a (durably_from clock grace now (failed_members_names v) [] 0).0
    ∙ durably_from-contains clock grace now (failed_members_names v) [] 0 a

-- What a round makes of the deadline that the loop carries.
round_next_lem :
    (deadline now next : ℕ)
    → ((round_next deadline now next ≡ next)
        ⊎ ((round_next deadline now next ≡ deadline) × (now < deadline)))
      × (0 < next → (0 < round_next deadline now next) × (round_next deadline now next ≤ next))
      × (now < deadline
          → (0 < round_next deadline now next) × (round_next deadline now next ≤ deadline))
unfolding round_next
round_next_lem deadline now next = ground arith

module _ (clock : FailureClock) (grace now : ℕ) where
  abbrev final : List String → List String → ℕ → ℕ
  final names evictable next = (durably_from clock grace now names evictable next).1

  final_lowers :
      (names evictable : List String) (next : ℕ)
      → 0 < next
      → (0 < final names evictable next) × (final names evictable next ≤ next)
  unfolding durably_from
  final_lowers [] ev next h = (h, omega arith)
  final_lowers (n ∷ ns) ev next h =
      let d = deadline_of clock grace now n in
      let low = (round_next_lem d now next).1 h in
      let rest = final_lowers ns (round_evictable d now n ev) (round_next d now next) low.0 in
      (rest.0, omega (arith, low.1, rest.1))

  final_least :
      (names evictable : List String) (next : ℕ) (a : String)
      → contains names a ≡ true
      → now < deadline_of clock grace now a
      → (0 < final names evictable next)
        × (final names evictable next ≤ deadline_of clock grace now a)
  unfolding durably_from
  final_least [] ev next a h k = absurd (ground arith)
  final_least (n ∷ ns) ev next a h k =
      let d = deadline_of clock grace now n in
      let ev' = round_evictable d now n ev in
      let next' = round_next d now next in
      elim (Bool-cases (str_eq n a)) [
        | inl e ↦
            let p : n ≡ a = (eq_iff n a).0 e in
            let low = (round_next_lem d now next).2 (rw p k) in
            let rest = final_lowers ns ev' next' low.0 in
            (rest.0, omega (arith, low.1, rest.1, ap (deadline_of clock grace now) p))
        | inr e ↦ final_least ns ev' next' a (ground arith) k
      ]

  final_source :
      (names evictable : List String) (next : ℕ)
      → (final names evictable next ≡ next)
        ⊎ ((a : String) × (contains names a ≡ true)
            × (deadline_of clock grace now a ≡ final names evictable next)
            × (now < final names evictable next))
  unfolding durably_from
  final_source [] ev next = inl refl
  final_source (n ∷ ns) ev next =
      let d = deadline_of clock grace now n in
      elim (final_source ns (round_evictable d now n ev) (round_next d now next)) [
        | inr (a, h, e, l) ↦ inr (a, ground arith, e, l)
        | inl e ↦ elim (round_next_lem d now next).0 [
          | inl q ↦ inl (e ∙ q)
          | inr (q, l) ↦ inr (n, ground (arith, eq_iff n n), sym (e ∙ q), rw (e ∙ q) l)
        ]
      ]

-- While some failed member is not evictable yet, the returned deadline lies in the future, is the one
-- of some failed member, and is at most the deadline of each such member.
pub next_deadline_lem :
    (v : View) (clock : FailureClock) (grace now : ℕ) (a : String)
    → contains (failed_members_names v) a ≡ true
    → now < since_or (lookup a clock) now + grace
    → let next = (durably_failed_members_names v clock grace now).1 in
      (now < next)
      × (next ≤ since_or (lookup a clock) now + grace)
      × ((b : String) × (contains (failed_members_names v) b ≡ true)
          × (since_or (lookup b clock) now + grace ≡ next))
unfolding durably_failed_members_names deadline_of
next_deadline_lem v clock grace now a h k =
    let (pos, le) = final_least clock grace now (failed_members_names v) [] 0 a h k in
    elim (final_source clock grace now (failed_members_names v) [] 0) [
      | inl e ↦ absurd (omega (arith, e, pos))
      | inr (b, f, d, l) ↦ (l, le, (b, f, d))
    ]

lookup-enter_failure :
    (now : ℕ) (n : String) (clock : FailureClock) (a : String)
    → lookup a (enter_failure now n clock)
      ≡ (if str_eq n a then some (since_or (lookup a clock) now) else lookup a clock)
unfolding enter_failure lookup since_or
lookup-enter_failure now n clock a = ground (arith, eq_iff n a)

lookup-enter_failures :
    (now : ℕ) (names : List String) (clock : FailureClock) (a : String)
    → lookup a (enter_failures now names clock)
      ≡ (if contains names a then some (since_or (lookup a clock) now) else lookup a clock)
unfolding enter_failures lookup since_or
lookup-enter_failures now [] clock a = refl
lookup-enter_failures now (n ∷ ns) clock a = ground (
  arith,
  eq_iff n a,
  lookup-enter_failure now n clock a,
  lookup-enter_failures now ns (enter_failure now n clock) a,
)

lookup-delete_recovered :
    (failed : List String) (clock : FailureClock) (a : String)
    → lookup a (delete_recovered failed clock)
      ≡ (if contains failed a then lookup a clock else none)
unfolding delete_recovered lookup
lookup-delete_recovered failed [] a = ground arith
lookup-delete_recovered failed ((n, t) ∷ clock) a =
    ground (arith, eq_iff n a, lookup-delete_recovered failed clock a)

-- After an observation the clock knows exactly the members that it reports failed: the time it
-- already had for them, or the present time.
pub track_failures_lem :
    (v : View) (now : ℕ) (clock : FailureClock) (a : String)
    → lookup a (track_failures v now clock)
      ≡ (if contains (failed_members_names v) a then some (since_or (lookup a clock) now) else none)
unfolding track_failures
track_failures_lem v now clock a = ground (
  arith,
  lookup-delete_recovered (failed_members_names v)
      (enter_failures now (failed_members_names v) clock) a,
  lookup-enter_failures now (failed_members_names v) clock a,
)

-- The clock after a history of observations, newest first.
unfoldable pub clock_after : List (ℕ × View) → FailureClock
clock_after [] = []
clock_after ((now, v) ∷ older) = track_failures v now (clock_after older)

-- When the unbroken run of observations that report a member failed, up to the newest one, began.
unfoldable pub failing_since : String → List (ℕ × View) → Option ℕ
failing_since a [] = none
failing_since a ((now, v) ∷ older) =
    if contains (failed_members_names v) a
    then some (since_or (failing_since a older) now)
    else none

-- Over any history of observations, the clock holds for each member the time at which its present
-- unbroken run of failed observations began, and nothing for a member that is not in such a run.
pub clock_after_lem :
    (history : List (ℕ × View)) (a : String)
    → lookup a (clock_after history) ≡ failing_since a history
unfolding clock_after failing_since lookup
clock_after_lem [] a = refl
clock_after_lem ((now, v) ∷ older) a =
    track_failures_lem v now (clock_after older) a
    ∙ ap (λ s. if contains (failed_members_names v) a then some (since_or s now) else none)
        (clock_after_lem older a)
