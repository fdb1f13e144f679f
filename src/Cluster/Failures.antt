-- ===== src/Cluster/Failures.antt =====
-- The failure clock of antsd/internal/cluster/rescale.go (`trackFailures`, `earliest`) and what
-- antsd/internal/cluster/view.go reads in it (`durablyFailedMembersNames`). A time is a number of
-- nanoseconds since Go's zero time, and 0 is that zero time.
pub mod Laws
use zero_config_ha_cluster.Common.{
  ℕ, ◌+◌, Bool, true, false, ◌||◌, List, [], ◌∷◌, ◌++◌, Option, none, some, String, str_eq, ltb,
  leb, ◌==◌, if◌then◌else◌, contains, keep,
}
use zero_config_ha_cluster.Node.Role.{sort}
use zero_config_ha_cluster.Cluster.View.{View, failed_members_names}

-- `map[string]time.Time`.
abbrev pub FailureClock : Type 0
FailureClock = List (String × ℕ)

-- `failedSince[name]`.
unfoldable pub lookup : String → FailureClock → Option ℕ
lookup k [] = none
lookup k ((j, t) ∷ m) = if str_eq j k then some t else lookup k m

-- `if !seen { since = now }`.
unfoldable pub since_or : Option ℕ → ℕ → ℕ
since_or none now = now
since_or (some t) now = t

-- When a member becomes evictable.
unfoldable pub deadline_of : FailureClock → ℕ → ℕ → String → ℕ
unfolding lookup since_or
deadline_of clock grace now name = since_or (lookup name clock) now + grace

-- What one round of the loop of `durablyFailedMembersNames` does to its variables `evictable` and
-- `nextDeadline`, for a name that becomes evictable at `deadline`.
unfoldable pub round_evictable : ℕ → ℕ → String → List String → List String
round_evictable deadline now name evictable =
    if leb deadline now then evictable ++ name ∷ [] else evictable

unfoldable pub round_next : ℕ → ℕ → ℕ → ℕ
round_next deadline now next =
    if leb deadline now then next else if next == 0 || ltb deadline next then deadline else next

-- The loop.
unfoldable pub durably_from : FailureClock → ℕ → ℕ → List String → List String → ℕ → List String × ℕ
unfolding round_evictable round_next
durably_from clock grace now [] evictable next = (evictable, next)
durably_from clock grace now (name ∷ names) evictable next =
    let deadline = deadline_of clock grace now name in
    durably_from clock grace now names (round_evictable deadline now name evictable)
      (round_next deadline now next)

-- `durablyFailedMembersNames`.
unfoldable pub durably_failed_members_names : View → FailureClock → ℕ → ℕ → List String × ℕ
durably_failed_members_names v clock grace now =
    let (evictable, next) = durably_from clock grace now (failed_members_names v) [] 0 in
    (sort evictable, next)

-- A round of the loop of `trackFailures`: a name that is not there yet is entered with the present
-- time.
enter_failure : ℕ → String → FailureClock → FailureClock
enter_failure now name clock = elim (lookup name clock) [
  | none ↦ (name, now) ∷ clock
  | some _ ↦ clock
]

-- The loop.
enter_failures : ℕ → List String → FailureClock → FailureClock
unfolding enter_failure
enter_failures now [] clock = clock
enter_failures now (name ∷ names) clock = enter_failures now names (enter_failure now name clock)

-- `maps.DeleteFunc` with the predicate of `trackFailures`.
delete_recovered : List String → FailureClock → FailureClock
delete_recovered failed [] = []
delete_recovered failed ((name, t) ∷ clock) =
    let rest = delete_recovered failed clock in
    if contains failed name then (name, t) ∷ rest else rest

-- `trackFailures`.
unfoldable pub track_failures : View → ℕ → FailureClock → FailureClock
unfolding enter_failures delete_recovered
track_failures v now clock =
    delete_recovered (failed_members_names v) (enter_failures now (failed_members_names v) clock)

-- `delete(failedSince, name)`.
unfoldable pub delete : String → FailureClock → FailureClock
delete k [] = []
delete k ((j, t) ∷ clock) = let rest = delete k clock in if str_eq j k then rest else (j, t) ∷ rest

-- `earliest`.
unfoldable pub earliest : ℕ → ℕ → ℕ
earliest a b = if a == 0 then b else if b == 0 then a else if ltb b a then b else a
