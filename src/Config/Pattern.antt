-- ===== src/Config/Pattern.antt =====
-- The regular expression of antsd/internal/config/nodename.go by its meaning, beside the test.
use zero_config_ha_cluster.Common.{
  ℕ, ◌≤◌, ◌≡◌, refl, sym, ap, subst, ◌∙◌, ◌⊎◌, inl, inr, ◌↔◌, Bool, true, false, List, [], ◌∷◌,
  ◌++◌, none, String, len, str_eq, codes, arith, eq_iff, Bool-cases,
}
use text.Mathlib.TextLemmas.{cons-ne-nil}
use zero_config_ha_cluster.Config.NodeName.{
  is_alnum, is_inner, matches_rest, matches_name, validate_node_name,
}

-- Regular expressions over numbers of characters.
pub data Regex : Type 0 where
  class : (ℕ → Bool) → Regex
  seq : Regex → Regex → Regex
  star option : Regex → Regex

-- The texts of a language, any number of times in a row.
pub data Star (P : List ℕ → Type 0) : List ℕ → Type 0 where
  nil : {u : List ℕ} → u ≡ [] → Star P u
  cons : {u : List ℕ} (s t : List ℕ) → P s → Star P t → u ≡ s ++ t → Star P u

-- The language of an expression, over whole texts.
abbrev pub Matches : Regex → List ℕ → Type 0
Matches (class p) u = (c : ℕ) × (u ≡ c ∷ []) × (p c ≡ true)
Matches (seq r q) u = (s : List ℕ) × (t : List ℕ) × (u ≡ s ++ t) × Matches r s × Matches q t
Matches (star r) u = Star (Matches r) u
Matches (option r) u = (u ≡ []) ⊎ Matches r u

-- `^[a-z0-9]([-a-z0-9]*[a-z0-9])?$`.
abbrev pub node_name_pattern : Regex
node_name_pattern = seq (class is_alnum) (option (seq (star (class is_inner)) (class is_alnum)))

abbrev Inner : List ℕ → Type 0
Inner = Star (Matches (class is_inner))

matches_rest_sound :
    (c : ℕ) (cs : List ℕ)
    → matches_rest (c ∷ cs) ≡ true
    → Matches (seq (star (class is_inner)) (class is_alnum)) (c ∷ cs)
unfolding matches_rest
matches_rest_sound c [] h = ([], c ∷ [], refl, Star.nil refl, (c, refl, h))
matches_rest_sound c (d ∷ cs) h =
    let (s, t, e, i, a) = matches_rest_sound d cs (ground arith) in
    (c ∷ s, t, ap (λ l. c ∷ l) e, Star.cons (c ∷ []) s (c, refl, ground arith) i refl, a)

matches_rest_cons :
    (c : ℕ) (s t : List ℕ) (d : ℕ)
    → t ≡ d ∷ []
    → is_inner c ≡ true
    → matches_rest (s ++ t) ≡ true
    → matches_rest (c ∷ (s ++ t)) ≡ true
unfolding matches_rest
matches_rest_cons c [] t d e h k = ground arith
matches_rest_cons c (x ∷ s) t d e h k = ground arith

matches_rest_complete :
    (u s t : List ℕ) → Inner s → Matches (class is_alnum) t → u ≡ s ++ t → matches_rest u ≡ true
unfolding matches_rest
matches_rest_complete u s t (Star.nil e) (d, f, a) g =
    subst (λ l. matches_rest l ≡ true) (sym (g ∙ ap (λ l. l ++ t) e ∙ f)) a
matches_rest_complete u s t (Star.cons s1 s2 (c, f, b) i e) (d, k, a) g =
    let rest = matches_rest_complete (s2 ++ t) s2 t i (d, k, a) refl in
    subst (λ l. matches_rest l ≡ true) (sym (g ∙ ap (λ l. l ++ t) (e ∙ ap (λ l. l ++ s2) f)))
      (matches_rest_cons c s2 t d k b rest)

-- The test behind `MatchString` accepts exactly the texts of the regular expression.
pub matches_name_iff : (u : List ℕ) → (matches_name u ≡ true) ↔ Matches node_name_pattern u
unfolding matches_name
matches_name_iff u = (sound u, complete u)
  where
    sound : (l : List ℕ) → matches_name l ≡ true → Matches node_name_pattern l
    sound [] h = absurd (ground arith)
    sound (c ∷ []) h = (c ∷ [], [], refl, (c, refl, ground arith), inl refl)
    sound (c ∷ d ∷ cs) h = (
      c ∷ [],
      d ∷ cs,
      refl,
      (c, refl, ground arith),
      inr (matches_rest_sound d cs (ground arith)),
    )

    complete : (l : List ℕ) → Matches node_name_pattern l → matches_name l ≡ true
    complete l (s, t, e, (c, f, a), inl k) =
        subst (λ x. matches_name x ≡ true) (sym (e ∙ ap (λ x. x ++ t) f ∙ ap (λ x. c ∷ x) k))
          (ground arith)
    complete l (s, t, e, (c, f, a), inr (s2, t2, g, i, q)) =
        subst (λ x. matches_name x ≡ true) (sym (e ∙ ap (λ x. x ++ t) f))
          (ground (arith, matches_rest_complete t s2 t2 i q g))

pub nonempty : (s : String) → matches_name (codes s) ≡ true → str_eq s "" ≡ false
unfolding matches_name
nonempty String.[] h = absurd (ground arith)
nonempty (String.◌∷◌ c s) h = elim (Bool-cases (str_eq (String.◌∷◌ c s) "")) [
  | inl e ↦ absurd (cons-ne-nil c s ((eq_iff (String.◌∷◌ c s) "").0 e))
  | inr e ↦ e
]

-- A name is accepted exactly when it has at most 63 bytes and matches `^[a-z0-9]([-a-z0-9]*[a-z0-9])?$`.
pub validate_node_name-none_iff :
    (name : String)
    → (validate_node_name name ≡ none) ↔ ((len name ≤ 63) × Matches node_name_pattern (codes name))
unfolding validate_node_name
validate_node_name-none_iff name = (
  λ h. (ground arith, (matches_name_iff (codes name)).0 (ground arith)),
  λ (l, p). ground (arith, (matches_name_iff (codes name)).1 p, nonempty name),
)
