-- ===== src/Cluster/View/Selection.antt =====
-- The elections of antsd/internal/cluster/view.go: what the two loops over the members find.
use zero_config_ha_cluster.Common.{
  ◌≡◌, refl, sym, subst, ◌∙◌, Bool, true, false, not, ◌⊎◌, inl, inr, [], ◌∷◌, String, str_eq,
  str_lt, In, here, there, str_lt_irrefl, str_lt_asymm, str_ge_trans, arith, Bool-cases,
}
use zero_config_ha_cluster.Node.State.{State}
use zero_config_ha_cluster.Cluster.View.{
  Member, no_member, View, is_alive_in, next_target, pick_from, lowest_named_alive_member_in,
  highest_named_alive_member_in,
}

-- Every member has a name, as Serf requires.
abbrev pub IsNamed : View → Type 0
IsNamed [] = Unit {0}
IsNamed (m ∷ ms) = (str_eq m.name "" ≡ false) × IsNamed ms

pub IsNamed-In : (v : View) (m : Member) → IsNamed v → In m v → str_eq m.name "" ≡ false
IsNamed-In [] m n i = elim i [ ]
IsNamed-In (x ∷ xs) m n (here e) = ground arith
IsNamed-In (x ∷ xs) m n (there i) = IsNamed-In xs m n.1 i

-- What the loops need of the comparison of names.
record IsOrder (better : String → String → Bool) : Type 0 where
  irrefl : (a : String) → better a a ≡ false
  asymm : (a b : String) → better a b ≡ true → better b a ≡ false
  ge_trans : (a b c : String) → better b a ≡ false → better c b ≡ false → better c a ≡ false

below-IsOrder : IsOrder (λ a b. str_lt a b)
below-IsOrder = record { irrefl = str_lt_irrefl; asymm = str_lt_asymm; ge_trans = str_ge_trans }

above-IsOrder : IsOrder (λ a b. str_lt b a)
above-IsOrder = record {
  irrefl = str_lt_irrefl;
  asymm = λ a b h. str_lt_asymm b a h;
  ge_trans = λ a b c h k. str_ge_trans c b a k h;
}

module _ (better : String → String → Bool) (o : IsOrder better) (s : State) where
  pick_from_source :
      (v : View) (t : Member)
      → (pick_from better s t v ≡ t)
        ⊎ (In (pick_from better s t v) v × (is_alive_in s (pick_from better s t v) ≡ true))
  unfolding pick_from
  pick_from_source [] t = inl refl
  pick_from_source (m ∷ ms) t = go (pick_from_source ms (next_target better s t m))
    where
      chosen :
          (next_target better s t m ≡ t)
          ⊎ ((next_target better s t m ≡ m) × (is_alive_in s m ≡ true))
      chosen = ground arith

      go :
          (pick_from better s (next_target better s t m) ms ≡ next_target better s t m)
            ⊎ (In (pick_from better s (next_target better s t m) ms) ms
                × (is_alive_in s (pick_from better s (next_target better s t m) ms) ≡ true))
          → (pick_from better s (next_target better s t m) ms ≡ t)
            ⊎ (In (pick_from better s (next_target better s t m) ms) (m ∷ ms)
                × (is_alive_in s (pick_from better s (next_target better s t m) ms) ≡ true))
      go (inr (i, c)) = inr (there i, c)
      go (inl p) = elim chosen [
        | inl q ↦ inl (p ∙ q)
        | inr (q, c) ↦ inr (here (p ∙ q), subst (λ x. is_alive_in s x ≡ true) (sym (p ∙ q)) c)
      ]

  -- A round never makes the target worse, and takes a candidate into account.
  next_target_keeps :
      (t m : Member)
      → str_eq m.name "" ≡ false
      → str_eq t.name "" ≡ false
      → (str_eq (next_target better s t m).name "" ≡ false)
        × (better t.name (next_target better s t m).name ≡ false)
  unfolding next_target
  next_target_keeps t m n h = ground (arith, o.irrefl t.name, o.asymm m.name t.name)

  next_target_takes :
      (t m : Member)
      → str_eq m.name "" ≡ false
      → is_alive_in s m ≡ true
      → (str_eq (next_target better s t m).name "" ≡ false)
        × (better m.name (next_target better s t m).name ≡ false)
  unfolding next_target
  next_target_takes t m n h = ground (arith, o.irrefl m.name)

  -- The target only gets better.
  pick_from_target :
      (v : View) (t : Member)
      → IsNamed v
      → str_eq t.name "" ≡ false
      → (str_eq (pick_from better s t v).name "" ≡ false)
        × (better t.name (pick_from better s t v).name ≡ false)
  unfolding pick_from
  pick_from_target [] t n h = (h, o.irrefl t.name)
  pick_from_target (m ∷ ms) t n h =
      let (a, b) = next_target_keeps t m n.0 h in
      let (c, d) = pick_from_target ms (next_target better s t m) n.1 a in
      (c, o.ge_trans _ (next_target better s t m).name t.name d b)

  -- No candidate is better than what the loop picks.
  pick_from_best :
      (v : View) (t c : Member)
      → IsNamed v
      → In c v
      → is_alive_in s c ≡ true
      → (str_eq (pick_from better s t v).name "" ≡ false)
        × (better c.name (pick_from better s t v).name ≡ false)
  unfolding pick_from
  pick_from_best [] t c n i a = elim i [ ]
  pick_from_best (m ∷ ms) t c n (there i) a = pick_from_best ms (next_target better s t m) c n.1 i a
  pick_from_best (m ∷ ms) t c n (here p) a =
      let (e, b) = next_target_takes t m n.0 (ground arith) in
      let (f, d) = pick_from_target ms (next_target better s t m) n.1 e in
      (f, rw p (o.ge_trans _ (next_target better s t m).name m.name d b))

-- A member that is alive in a state and that no other such member beats.
pub record IsPick (better : String → String → Bool) (s : State) (v : View) (m : Member)
    : Type 0 where
  pub member : In m v
  pub candidate : is_alive_in s m ≡ true
  pub best : (c : Member) → In c v → is_alive_in s c ≡ true → better c.name m.name ≡ false

-- What a search may answer: the best candidate, or that there is none.
abbrev pub Answers : (String → String → Bool) → State → View → Member × Bool → Type 0
Answers better s v r =
    ((r.1 ≡ true) × IsPick better s v r.0)
    ⊎ ((r.1 ≡ false) × ((c : Member) → In c v → is_alive_in s c ≡ false))

pick_from-Answers :
    (better : String → String → Bool) (o : IsOrder better) (s : State) (v : View)
    → IsNamed v
    → Answers better s v
        (pick_from better s no_member v, not (str_eq (pick_from better s no_member v).name ""))
pick_from-Answers better o s v n = elim (pick_from_source better o s v no_member) [
  | inr (i, c) ↦ inl (
    rw (IsNamed-In v _ n i),
    record {
      member = i;
      candidate = c;
      best = λ d j a. (pick_from_best better o s v no_member d n j a).1;
    },
  )
  | inl p ↦ inr (
    rw p,
    λ c i. elim (Bool-cases (is_alive_in s c)) [
      | inl a ↦
          let q : str_eq (pick_from better s no_member v).name "" ≡ true = rw p in
          let b : str_eq (pick_from better s no_member v).name "" ≡ false =
            (pick_from_best better o s v no_member c n i a).0 in
          absurd (ground (arith, q, b))
      | inr a ↦ a
    ],
  )
]

-- Over named members, the search for the lowest name finds an alive member in the state that no
-- other such member is below, or says that there is none and there is none.
pub lowest_named_alive_member_in-Answers :
    (v : View) (s : State)
    → IsNamed v
    → Answers (λ a b. str_lt a b) s v (lowest_named_alive_member_in v s)
unfolding lowest_named_alive_member_in
lowest_named_alive_member_in-Answers v s n = pick_from-Answers _ below-IsOrder s v n

-- The same of the search for the highest name.
pub highest_named_alive_member_in-Answers :
    (v : View) (s : State)
    → IsNamed v
    → Answers (λ a b. str_lt b a) s v (highest_named_alive_member_in v s)
unfolding highest_named_alive_member_in
highest_named_alive_member_in-Answers v s n = pick_from-Answers _ above-IsOrder s v n
