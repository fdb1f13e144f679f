-- ===== src/Common/Text.antt =====
-- Names are native texts: `==` and `<` of Go's strings, and the laws of the order.
use Prim.Native.Nat.{ℕ, Ordering, compare as compare_ℕ}
use Prim.Native.Char.{code}
use Prim.Native.String.{String, compare, then}
use Prim.Native.String.compare
use text.Mathlib.Text.{◌==◌, is_lt}
use text.Mathlib.TextEquality.{path_by_compare, eq_iff}
use text.Mathlib.TextPositions.{compare_refl}
use mathlib.Core.Path.{◌≡◌, refl, sym, ap, ap₂, ◌∙◌}
use mathlib.Core.Logic.{◌≢◌, inl, inr}
use mathlib.Core.Bool.{Bool, true, false}
use native.Mathlib.Omega.{arith}
use zero_config_ha_cluster.Common.Tests.{Bool-cases}

abbrev pub str_eq : String → String → Bool
str_eq a b = a == b

abbrev pub str_lt : String → String → Bool
str_lt a b = is_lt (compare a b)

abbrev flip : Ordering → Ordering
flip Ordering.lt = Ordering.gt
flip Ordering.eq = Ordering.eq
flip Ordering.gt = Ordering.lt

flip-then : (o p : Ordering) → then (flip o) (flip p) ≡ flip (then o p)
flip-then Ordering.lt p = refl
flip-then Ordering.eq p = refl
flip-then Ordering.gt p = refl

flip-compare_codes : (m n : ℕ) → compare_ℕ n m ≡ flip (compare_ℕ m n)
flip-compare_codes m n = ground arith

pub compare-flip : (a b : String) → compare b a ≡ flip (compare a b)
compare-flip String.[] String.[] = refl
compare-flip String.[] (String.◌∷◌ d t) =
    compare.cons-nil d t ∙ ap flip (sym (compare.nil-cons d t))
compare-flip (String.◌∷◌ c s) String.[] =
    compare.nil-cons c s ∙ ap flip (sym (compare.cons-nil c s))
compare-flip (String.◌∷◌ c s) (String.◌∷◌ d t) =
    compare.cons-cons d c t s
    ∙ ap₂ then (flip-compare_codes (code c) (code d)) (compare-flip s t)
    ∙ flip-then (compare_ℕ (code c) (code d)) (compare s t)
    ∙ ap flip (sym (compare.cons-cons c d s t))

-- The comparison is at most "equal" along a chain of such comparisons.
abbrev not_gt : Ordering → Bool
not_gt Ordering.gt = false
not_gt _ = true

then_trans :
    (x y z : ℕ) (p q r : Ordering)
    → (not_gt p ≡ true → not_gt q ≡ true → not_gt r ≡ true)
    → not_gt (then (compare_ℕ x y) p) ≡ true
    → not_gt (then (compare_ℕ y z) q) ≡ true
    → not_gt (then (compare_ℕ x z) r) ≡ true
then_trans x y z p q r h a b = ground arith

pub le_trans :
    (a b c : String)
    → not_gt (compare a b) ≡ true
    → not_gt (compare b c) ≡ true
    → not_gt (compare a c) ≡ true
le_trans String.[] b String.[] h k = refl
le_trans String.[] b (String.◌∷◌ e u) h k = rw (compare.nil-cons e u)
le_trans (String.◌∷◌ c s) String.[] d h k = absurd (ground (arith, compare.cons-nil c s))
le_trans (String.◌∷◌ c s) (String.◌∷◌ d t) String.[] h k =
    absurd (ground (arith, compare.cons-nil d t))
le_trans (String.◌∷◌ c s) (String.◌∷◌ d t) (String.◌∷◌ e u) h k = rw (compare.cons-cons c e s u) (
    then_trans (code c) (code d) (code e) (compare s t) (compare t u) (compare s u) (le_trans s t u)
      (rw (compare.cons-cons c d s t) at h) (rw (compare.cons-cons d e t u) at k))

pub str_lt_irrefl : (a : String) → str_lt a a ≡ false
str_lt_irrefl a = ap is_lt (compare_refl a)

pub str_lt_asymm : (a b : String) → str_lt a b ≡ true → str_lt b a ≡ false
str_lt_asymm a b h = ground (arith, compare-flip a b)

-- Two names neither of which is below the other are one name.
pub str_lt_total : (a b : String) → str_lt a b ≡ false → str_lt b a ≡ false → a ≡ b
str_lt_total a b h k = path_by_compare a b (ground (arith, compare-flip a b))

-- "Not below" is transitive.
pub str_ge_trans : (a b c : String) → str_lt b a ≡ false → str_lt c b ≡ false → str_lt c a ≡ false
str_ge_trans a b c h k =
    ground (arith, compare-flip a b, compare-flip b c, compare-flip a c, le_trans a b c)

pub str_lt_trans : (a b c : String) → str_lt a b ≡ true → str_lt b c ≡ true → str_lt a c ≡ true
str_lt_trans a b c h k = ground (
  arith,
  compare-flip a b,
  compare-flip b c,
  compare-flip a c,
  le_trans c a b,
  le_trans b c a,
  path_by_compare a c,
)

-- Names that differ are told apart.
pub str_eq-false : (s t : String) → s ≢ t → str_eq s t ≡ false
str_eq-false s t h = elim (Bool-cases (str_eq s t)) [
  | inl e ↦ absurd (h ((eq_iff s t).0 e))
  | inr e ↦ e
]
