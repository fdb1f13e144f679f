-- ===== src/Common/SortBy.antt =====
-- `sort.Slice` and `slices.SortFunc` on a name that each element has, as an insertion sort.
use Prim.Native.Nat.{ℕ, suc}
use Prim.Native.String.{String}
use mathlib.Core.Path.{◌≡◌, refl, ap, ◌∙◌}
use mathlib.Core.Bool.{Bool, false, ◌||◌}
use mathlib.Core.List.{List, [], ◌∷◌}
use native.Mathlib.Omega.{arith}
use zero_config_ha_cluster.Common.Tests.{if◌then◌else◌, if-elim}
use zero_config_ha_cluster.Common.Lists.{any, count_if, In, here, there}
use zero_config_ha_cluster.Common.Text.{str_lt, str_lt_asymm, str_ge_trans}

module _ {A : Type 0} (key : A → String) where
  unfoldable pub insert_by : A → List A → List A
  insert_by a [] = a ∷ []
  insert_by a (x ∷ xs) =
      let rest = insert_by a xs in if str_lt (key x) (key a) then x ∷ rest else a ∷ x ∷ xs

  unfoldable pub sort_by : List A → List A
  unfolding insert_by
  sort_by [] = []
  sort_by (x ∷ xs) = insert_by x (sort_by xs)

  -- No element has a lower name than one before it.
  abbrev pub IsOrdered : List A → Type 0
  IsOrdered [] = Unit {0}
  IsOrdered (x ∷ xs) = (any (λ y. str_lt (key y) (key x)) xs ≡ false) × IsOrdered xs

  count_if-insert_by :
      (p : A → Bool) (a : A) (l : List A) → count_if p (insert_by a l) ≡ count_if p (a ∷ l)
  unfolding insert_by
  count_if-insert_by p a [] = refl
  count_if-insert_by p a (x ∷ xs) = ground (arith, count_if-insert_by p a xs)

  pub count_if-sort_by : (p : A → Bool) (l : List A) → count_if p (sort_by l) ≡ count_if p l
  unfolding sort_by
  count_if-sort_by p [] = refl
  count_if-sort_by p (x ∷ xs) =
      count_if-insert_by p x (sort_by xs)
      ∙ ap (λ (n : ℕ). if p x then suc n else n) (count_if-sort_by p xs)

  In-insert_by : (b a : A) (l : List A) → In b (insert_by a l) → In b (a ∷ l)
  unfolding insert_by
  In-insert_by b a [] i = i
  In-insert_by b a (x ∷ xs) i =
      if-elim (λ l. In b l → In b (a ∷ x ∷ xs)) (str_lt (key x) (key a)) (x ∷ insert_by a xs)
        (a ∷ x ∷ xs) (λ _. past (In-insert_by b a xs)) (λ _ j. j) i
    where
      swapped : In b (a ∷ xs) → In b (a ∷ x ∷ xs)
      swapped (here e) = here e
      swapped (there i) = there (there i)

      past : (In b (insert_by a xs) → In b (a ∷ xs)) → In b (x ∷ insert_by a xs) → In b (a ∷ x ∷ xs)
      past rec (here e) = there (here e)
      past rec (there i) = swapped (rec i)

  -- Sorting brings no element in.
  pub In-sort_by : (b : A) (l : List A) → In b (sort_by l) → In b l
  unfolding sort_by
  In-sort_by b [] i = i
  In-sort_by b (x ∷ xs) i = under (In-sort_by b xs) (In-insert_by b x (sort_by xs) i)
    where
      under : (In b (sort_by xs) → In b xs) → In b (x ∷ sort_by xs) → In b (x ∷ xs)
      under rec (here e) = here e
      under rec (there j) = there (rec j)

  any-insert_by : (p : A → Bool) (a : A) (l : List A) → any p (insert_by a l) ≡ any p (a ∷ l)
  unfolding insert_by
  any-insert_by p a [] = refl
  any-insert_by p a (x ∷ xs) = ground (arith, any-insert_by p a xs)

  pub any-sort_by : (p : A → Bool) (l : List A) → any p (sort_by l) ≡ any p l
  unfolding sort_by
  any-sort_by p [] = refl
  any-sort_by p (x ∷ xs) = any-insert_by p x (sort_by xs) ∙ ap (λ b. p x || b) (any-sort_by p xs)

  -- What is not below a lower name is not below a higher one.
  any-below :
      (a b : String) (l : List A)
      → str_lt b a ≡ false
      → any (λ y. str_lt (key y) b) l ≡ false
      → any (λ y. str_lt (key y) a) l ≡ false
  any-below a b [] h k = refl
  any-below a b (x ∷ xs) h k =
      ground (arith, str_ge_trans (key x) b a, str_ge_trans a b (key x), any-below a b xs h)

  insert_by-IsOrdered : (a : A) (l : List A) → IsOrdered l → IsOrdered (insert_by a l)
  unfolding insert_by
  insert_by-IsOrdered a [] o = (refl, tt)
  insert_by-IsOrdered a (x ∷ xs) o = ground (
    arith,
    insert_by-IsOrdered a xs,
    any-insert_by (λ y. str_lt (key y) (key x)) a xs,
    any-below (key a) (key x) xs,
    str_lt_asymm (key x) (key a),
  )

  pub sort_by-IsOrdered : (l : List A) → IsOrdered (sort_by l)
  unfolding sort_by
  sort_by-IsOrdered [] = tt
  sort_by-IsOrdered (x ∷ xs) = insert_by-IsOrdered x (sort_by xs) (sort_by-IsOrdered xs)
