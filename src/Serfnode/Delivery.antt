-- ===== src/Serfnode/Delivery.antt =====
-- What antsd/internal/serfnode/serfnode.go delivers of the events: never more than the channel
-- holds, in their order, and everything as long as there is room.
use zero_config_ha_cluster.Common.{
  ℕ, zero, suc, ◌-◌, ◌≤◌, ◌≡◌, refl, sym, ap, subst, ◌∙◌, List, [], ◌∷◌, ◌++◌, map, ltb, length,
  arith, Bool-cases, inl, inr, length-append, append-nil, append_assoc,
}
use zero_config_ha_cluster.Serfnode.Events.{
  Event, LibraryType, RawMember, RawEvent, member_event, user_event, ignored, user, dispatch,
  event_of_member, dispatch_members, handle_raw_event, event_ch_capacity,
}

-- The first elements of a list.
abbrev pub take {ℓ} : {A : Type ℓ} → ℕ → List A → List A
take zero xs = []
take (suc n) [] = []
take (suc n) (x ∷ xs) = x ∷ take n xs

-- Every event that a raw event stands for.
abbrev pub events_of : RawEvent → List Event
events_of (member_event t ms) = map (event_of_member t) ms
events_of (user_event name payload) =
    record { type = user; node_ip = ""; name = name; tags = []; payload = payload } ∷ []
events_of ignored = []

abbrev dispatch_all : List Event → List Event → List Event
dispatch_all [] ch = ch
dispatch_all (e ∷ es) ch = dispatch_all es (dispatch e ch)

take_zero : (n : ℕ) (es : List Event) → n ≡ 0 → take n es ≡ []
take_zero zero es h = refl
take_zero (suc n) es h = absurd (omega arith)

take_suc : (n : ℕ) (e : Event) (es : List Event) → 1 ≤ n → take n (e ∷ es) ≡ e ∷ take (n - 1) es
take_suc zero e es h = absurd (omega arith)
take_suc (suc n) e es h = ap (λ k. e ∷ take k es) (omega arith)

take-nil : (n : ℕ) → take {A = Event} n [] ≡ []
take-nil zero = refl
take-nil (suc n) = refl

dispatch_all-take :
    (es ch : List Event)
    → length ch ≤ event_ch_capacity
    → dispatch_all es ch ≡ ch ++ take (event_ch_capacity - length ch) es
unfolding dispatch
dispatch_all-take [] ch l =
    sym (ap (λ l. ch ++ l) (take-nil (event_ch_capacity - length ch)) ∙ append-nil ch)
dispatch_all-take (e ∷ es) ch l = elim (Bool-cases (ltb (length ch) event_ch_capacity)) [
  | inl h ↦
      let k : length (ch ++ (e ∷ [])) ≤ event_ch_capacity =
        ground (arith, length-append ch (e ∷ [])) in
      rw h (
        dispatch_all-take es (ch ++ (e ∷ [])) k
        ∙ append_assoc ch (e ∷ []) _
        ∙ ap (λ l. ch ++ l)
            (ap (λ n. e ∷ take n es) (omega (arith, length-append ch (e ∷ [])))
              ∙ sym (take_suc (event_ch_capacity - length ch) e es (ground arith))))
  | inr h ↦
      let z : event_ch_capacity - length ch ≡ 0 = ground arith in
      rw h (
        dispatch_all-take es ch l
        ∙ ap (λ k. ch ++ k) (take_zero _ es z ∙ sym (take_zero _ (e ∷ es) z)))
]

dispatch_members-all :
    (t : LibraryType) (ms : List RawMember) (ch : List Event)
    → dispatch_members t ms ch ≡ dispatch_all (map (event_of_member t) ms) ch
unfolding dispatch_members
dispatch_members-all t [] ch = refl
dispatch_members-all t (m ∷ ms) ch = dispatch_members-all t ms (dispatch (event_of_member t m) ch)

-- To a channel within its capacity, a raw event adds its events at the end, in their order, as far
-- as the capacity reaches; the rest of them is dropped.
pub handle_raw_event-take :
    (e : RawEvent) (ch : List Event)
    → length ch ≤ event_ch_capacity
    → handle_raw_event e ch ≡ ch ++ take (event_ch_capacity - length ch) (events_of e)
unfolding handle_raw_event
handle_raw_event-take (member_event t ms) ch l =
    dispatch_members-all t ms ch ∙ dispatch_all-take (map (event_of_member t) ms) ch l
handle_raw_event-take (user_event name payload) ch l =
    dispatch_all-take (events_of (user_event name payload)) ch l
handle_raw_event-take ignored ch l = dispatch_all-take [] ch l

-- What remains of a list when some of its elements are left out.
pub data Part : List Event → List Event → Type 0 where
  empty : Part [] []
  kept : {e : Event} {xs ys : List Event} → Part xs ys → Part (e ∷ xs) (e ∷ ys)
  dropped : {e : Event} {xs ys : List Event} → Part xs ys → Part xs (e ∷ ys)

-- The channel and the orchestrator that reads it: what it has read, and what waits for it.
pub record Channel : Type 0 where
  pub read : List Event
  pub waiting : List Event

-- A raw event arrives, or the orchestrator reads the oldest event.
pub data Step : List Event → Channel → Channel → Type 0 where
  arrives :
      (e : RawEvent) (c : Channel)
      → Step (events_of e) c (record c { waiting = handle_raw_event e c.waiting })
  reads :
      (r w : List Event) (e : Event)
      → Step []
          (record { read = r; waiting = e ∷ w })
          (record { read = r ++ (e ∷ []); waiting = w })

-- Steps, with all the events that arrived in them.
pub data Steps : List Event → Channel → Channel → Type 0 where
  done : {c : Channel} → Steps [] c c
  more : {es fs : List Event} {c d e : Channel} → Steps es c d → Step fs d e → Steps (es ++ fs) c e

abbrev pub start : Channel
start = record { read = []; waiting = [] }

Part-refl : (xs : List Event) → Part xs xs
Part-refl [] = empty
Part-refl (x ∷ xs) = kept (Part-refl xs)

Part-take : (n : ℕ) (xs : List Event) → Part (take n xs) xs
Part-take zero [] = empty
Part-take zero (x ∷ xs) = dropped (Part-take zero xs)
Part-take (suc n) [] = empty
Part-take (suc n) (x ∷ xs) = kept (Part-take n xs)

Part-append : (xs ys cs ds : List Event) → Part xs ys → Part cs ds → Part (xs ++ cs) (ys ++ ds)
Part-append _ _ cs ds empty q = q
Part-append _ _ cs ds (kept p) q = kept (Part-append _ _ cs ds p q)
Part-append _ _ cs ds (dropped p) q = dropped (Part-append _ _ cs ds p q)

length-take : (n : ℕ) (xs : List Event) → length (take n xs) ≤ n
length-take zero xs = omega arith
length-take (suc n) [] = omega arith
length-take (suc n) (x ∷ xs) = omega (arith, length-take n xs)

pub handle_raw_event-bounded :
    (e : RawEvent) (ch : List Event)
    → length ch ≤ event_ch_capacity
    → length (handle_raw_event e ch) ≤ event_ch_capacity
handle_raw_event-bounded e ch l = rw (handle_raw_event-take e ch l) (
    omega (
      arith,
      l,
      length-append ch (take (event_ch_capacity - length ch) (events_of e)),
      length-take (event_ch_capacity - length ch) (events_of e),
    ))

abbrev Delivers : List Event → Channel → Type 0
Delivers es c = (length c.waiting ≤ event_ch_capacity) × Part (c.read ++ c.waiting) es

Step-Delivers :
    (es fs : List Event) (c d : Channel) → Delivers es c → Step fs c d → Delivers (es ++ fs) d
Step-Delivers es _ _ _ (l, p) (arrives e c) = (
  handle_raw_event-bounded e c.waiting l,
  rw (handle_raw_event-take e c.waiting l) (
      subst (λ x. Part x (es ++ events_of e))
        (append_assoc c.read c.waiting (take (event_ch_capacity - length c.waiting) (events_of e)))
        (Part-append _ es _ (events_of e) p (Part-take _ (events_of e)))),
)
Step-Delivers es _ _ _ (l, p) (reads r w e) = (
  omega (arith, l),
  subst (λ x. Part ((r ++ (e ∷ [])) ++ w) x) (sym (append-nil es))
      (subst (λ x. Part x es) (sym (append_assoc r (e ∷ []) w)) p),
)

-- Whatever arrives and is read, in any order: at most 64 events wait, and what was read and what
-- waits are events that arrived, in the order of their arrival and none of them twice.
pub Steps-Delivers :
    (es : List Event) (c : Channel)
    → Steps es start c
    → (length c.waiting ≤ 64) × Part (c.read ++ c.waiting) es
Steps-Delivers _ _ done = (omega arith, empty)
Steps-Delivers _ _ (more s t) = Step-Delivers _ _ _ _ (Steps-Delivers _ _ s) t
