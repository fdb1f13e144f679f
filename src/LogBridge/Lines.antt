-- ===== src/LogBridge/Lines.antt =====
-- What antsd/internal/logbridge/logbridge.go makes of the lines that the libraries write.
use zero_config_ha_cluster.Common.{
  ℕ, ◌≡◌, refl, sym, ap, ◌∙◌, Bool, true, false, ◌&&◌, List, [], ◌∷◌, ◌++◌, none, some, ◌==◌,
  if◌then◌else◌, is_space, is_blank, trim_left, trim_right, trim_space, any, arith, Bool-cases, inl,
  inr,
}
use zero_config_ha_cluster.Config.Printing.{Level}
use zero_config_ha_cluster.LogBridge.{
  level_of, is_below_warn, cut_at, parse_trimmed, parse_line, tag, Writer, write,
}

is_blank-append : (s t : List ℕ) → is_blank (s ++ t) ≡ (is_blank s && is_blank t)
is_blank-append [] t = refl
is_blank-append (c ∷ s) t = ground (arith, is_blank-append s t)

-- Behind a last character that is no space, only the rest is trimmed.
trim_right-append :
    (s : List ℕ) (c : ℕ) (t : List ℕ)
    → is_space c ≡ false
    → trim_right (s ++ (c ∷ t)) ≡ s ++ (c ∷ trim_right t)
trim_right-append [] c t h = ground arith
trim_right-append (d ∷ s) c t h =
    ground (arith, trim_right-append s c t h, is_blank-append s (c ∷ t))

trim_left-is_blank : (cs : List ℕ) → is_blank cs ≡ true → trim_left cs ≡ []
trim_left-is_blank [] h = refl
trim_left-is_blank (c ∷ cs) h = ground (arith, trim_left-is_blank cs)

trim_right-is_blank : (cs : List ℕ) → is_blank cs ≡ true → trim_right cs ≡ []
trim_right-is_blank [] h = refl
trim_right-is_blank (c ∷ cs) h = ground arith

-- Trimming the two ends commutes.
trim_left-trim_right : (cs : List ℕ) → trim_left (trim_right cs) ≡ trim_right (trim_left cs)
trim_left-trim_right [] = refl
trim_left-trim_right (c ∷ cs) = elim (Bool-cases (is_space c)) [
  | inl s ↦ elim (Bool-cases (is_blank cs)) [
    | inl b ↦ rw (s, b) (sym (ap trim_right (trim_left-is_blank cs b)))
    | inr b ↦ rw (s, b) (rw s (trim_left-trim_right cs))
  ]
  | inr s ↦ rw s (rw s refl)
]

trim_left_twice : (cs : List ℕ) → trim_left (trim_left cs) ≡ trim_left cs
trim_left_twice [] = refl
trim_left_twice (c ∷ cs) = ground (arith, trim_left_twice cs)

is_blank-trim_right : (cs : List ℕ) → is_blank (trim_right cs) ≡ is_blank cs
is_blank-trim_right [] = refl
is_blank-trim_right (c ∷ cs) = ground (arith, is_blank-trim_right cs)

trim_right_twice : (cs : List ℕ) → trim_right (trim_right cs) ≡ trim_right cs
trim_right_twice [] = refl
trim_right_twice (c ∷ cs) = ground (arith, trim_right_twice cs, is_blank-trim_right cs)

trim_space-trim_right : (cs : List ℕ) → trim_space (trim_right cs) ≡ trim_space cs
trim_space-trim_right cs = ap trim_right (trim_left-trim_right cs) ∙ trim_right_twice (trim_left cs)

-- A name without a closing bracket, between brackets.
abbrev pub bracketed : List ℕ → List ℕ → List ℕ
bracketed name msg = b'[' ∷ (name ++ (b']' ∷ msg))

abbrev has_bracket : List ℕ → Bool
has_bracket name = any (λ c. c == b']') name

cut_at-name :
    (name msg : List ℕ)
    → any (λ c. c == b']') name ≡ false
    → cut_at b']' (name ++ (b']' ∷ msg)) ≡ some (name, msg)
cut_at-name [] msg h = refl
cut_at-name (c ∷ name) msg h =
    let d : (c == b']') ≡ false = ground arith in
    let i = cut_at-name name msg (ground arith) in rw (d, i) refl

trim_space-bracketed :
    (name msg : List ℕ) → trim_space (bracketed name msg) ≡ bracketed name (trim_right msg)
trim_space-bracketed name msg = trim_right-append (b'[' ∷ name) b']' msg refl

parse_line-bracketed :
    (name msg : List ℕ) (level : Level)
    → any (λ c. c == b']') name ≡ false
    → level_of name ≡ some level
    → parse_line (bracketed name msg) ≡ (level, trim_space msg)
unfolding parse_line parse_trimmed
parse_line-bracketed name msg level h e =
    ap parse_trimmed (trim_space-bracketed name msg)
    ∙ (rw (cut_at-name name (trim_right msg) h, e)
        (ap (λ t. (level, t)) (trim_space-trim_right msg)))

-- A line that a library writes with one of its severities, in brackets before the message, is logged
-- at the level of that severity, as the trimmed message behind the component; a quiet logger drops
-- it exactly when the level is below a warning.
pub write-bracketed :
    (w : Writer) (name msg : List ℕ) (level : Level)
    → any (λ c. c == b']') name ≡ false
    → level_of name ≡ some level
    → write w (bracketed name msg) ≡ (
        if w.quiet && is_below_warn level
        then none
        else some (level, tag w.component (trim_space msg)))
unfolding write
write-bracketed w name msg level h e =
    ap
      (λ (r : Level × List ℕ).
        if w.quiet && is_below_warn r.0 then none else some (r.0, tag w.component r.1))
      (parse_line-bracketed name msg level h e)
