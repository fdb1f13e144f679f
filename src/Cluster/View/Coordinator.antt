-- ===== src/Cluster/View/Coordinator.antt =====
-- `isRescaleCoordinator` and `findDemotionTarget` of antsd/internal/cluster/view.go: who holds the
-- coordinator's turn.
use zero_config_ha_cluster.Common.{
  ◌≡◌, refl, ap, Bool, true, false, not, ◌&&◌, inl, inr, ◌↔◌, [], ◌∷◌, String, str_eq, str_lt, In,
  here, there, any, eq_iff, str_lt_total, arith, Bool-cases,
}
use zero_config_ha_cluster.Node.State.{stable_server}
use zero_config_ha_cluster.Cluster.View.{
  Member, View, is_alive_in, lowest_named_alive_member_in, is_rescale_coordinator,
}
use zero_config_ha_cluster.Cluster.View.Selection.{IsNamed, lowest_named_alive_member_in-Answers}

-- The coordinator by its place among the members.
is_rescale_coordinator_iff :
    (v : View) (self : String)
    → IsNamed v
    → (is_rescale_coordinator v self ≡ true) ↔ (
        (m : Member) × In m v
        × (is_alive_in stable_server m ≡ true)
        × (m.name ≡ self)
        × ((c : Member) → In c v → is_alive_in stable_server c ≡ true → str_lt c.name self ≡ false))
unfolding is_rescale_coordinator
is_rescale_coordinator_iff v self n =
    let r = lowest_named_alive_member_in v stable_server in
    elim (lowest_named_alive_member_in-Answers v stable_server n) [
      | inl (found, p) ↦ (
        λ h.
            let e : r.0.name ≡ self = ground (arith, eq_iff r.0.name self) in
            (r.0, p.member, p.candidate, e, λ c i a. rw (← e) (p.best c i a)),
        λ (m, i, a, e, low).
            let q : r.0.name ≡ self =
              str_lt_total r.0.name self (low r.0 p.member p.candidate) (rw (← e) (p.best m i a)) in
            ground (arith, eq_iff r.0.name self, q, found),
      )
      | inr (missing, absent) ↦ (
        λ h. absurd (ground (arith, missing)),
        λ (m, i, a, e, low). absurd (ground (arith, absent m i)),
      )
    ]

any_complete : (p : Member → Bool) (v : View) (m : Member) → In m v → p m ≡ true → any p v ≡ true
any_complete p [] m i h = elim i [ ]
any_complete p (x ∷ xs) m (here e) h = ground (arith, ap p e)
any_complete p (x ∷ xs) m (there i) h = ground (arith, any_complete p xs m i h)

any_sound : (p : Member → Bool) (v : View) → any p v ≡ true → (m : Member) × In m v × (p m ≡ true)
any_sound p [] h = absurd (ground arith)
any_sound p (x ∷ xs) h = elim (Bool-cases (p x)) [
  | inl e ↦ (x, here refl, e)
  | inr e ↦ let (m, i, q) = any_sound p xs (ground arith) in (m, there i, q)
]

-- The alive stable servers of a name, and those below it.
abbrev pub is_server_named : String → Member → Bool
is_server_named self m = is_alive_in stable_server m && str_eq m.name self

abbrev pub is_server_below : String → Member → Bool
is_server_below self m = is_alive_in stable_server m && str_lt m.name self

coordinator_any :
    (v : View) (self : String)
    → IsNamed v
    → is_rescale_coordinator v self ≡ true
    → (any (is_server_named self) v ≡ true) × (any (is_server_below self) v ≡ false)
coordinator_any v self n h =
    let (m, i, a, e, low) = (is_rescale_coordinator_iff v self n).0 h in
    (
      any_complete (is_server_named self) v m i (ground (arith, eq_iff m.name self)),
      elim (Bool-cases (any (is_server_below self) v)) [
        | inl b ↦
            let (c, j, q) = any_sound (is_server_below self) v b in
            absurd (ground (arith, low c j (ground arith)))
        | inr b ↦ b
      ],
    )

any_coordinator :
    (v : View) (self : String)
    → IsNamed v
    → any (is_server_named self) v ≡ true
    → any (is_server_below self) v ≡ false
    → is_rescale_coordinator v self ≡ true
any_coordinator v self n h b =
    let (m, i, q) = any_sound (is_server_named self) v h in
    let below = λ (c : Member) (j : In c v) (p : is_server_below self c ≡ true).
      any_complete (is_server_below self) v c j p in
    (is_rescale_coordinator_iff v self n).1 (
      m,
      i,
      ground arith,
      ground (arith, eq_iff m.name self),
      λ c j a. elim (Bool-cases (str_lt c.name self)) [
        | inl l ↦ absurd (ground (arith, below c j (ground arith)))
        | inr l ↦ l
      ],
    )

-- Over named members, a node holds the coordinator's turn exactly when some alive stable server
-- bears its name and no alive stable server has a lower one.
pub is_rescale_coordinator_lem :
    (v : View) (self : String)
    → IsNamed v
    → is_rescale_coordinator v self
      ≡ (any (is_server_named self) v && not (any (is_server_below self) v))
is_rescale_coordinator_lem v self n = elim (Bool-cases (is_rescale_coordinator v self)) [
  | inl h ↦ let (a, b) = coordinator_any v self n h in ground arith
  | inr h ↦ ground (arith, any_coordinator v self n)
]
