-- ===== src/Node/Sorting.antt =====
-- Lemmas on the sort and the search that `Rank` makes: positions in a sorted list are counts.
use zero_config_ha_cluster.Common.{
  ℕ, suc, ◌-◌, min, ◌≡◌, refl, ap, ◌∙◌, Bool, true, false, ◌||◌, List, [], ◌∷◌, none, some, String,
  str_eq, str_lt, ltb, if◌then◌else◌, count_if, length, contains, str_lt_irrefl, str_lt_asymm,
  str_lt_total, str_lt_trans, eq_iff, arith,
}
use zero_config_ha_cluster.Node.Role.{insert, sort, index}

-- How many names stand before `a`.
abbrev pub count_below : String → List String → ℕ
count_below a = count_if (λ x. str_lt x a)

-- No name stands twice in the list.
abbrev pub IsDistinct : List String → Type 0
IsDistinct [] = Unit {0}
IsDistinct (x ∷ xs) = (contains xs x ≡ false) × IsDistinct xs

-- Every name of the list is above `a`.
abbrev pub Above : String → List String → Type 0
Above a [] = Unit {0}
Above a (x ∷ xs) = (str_lt a x ≡ true) × Above a xs

-- The names rise.
abbrev pub IsRising : List String → Type 0
IsRising [] = Unit {0}
IsRising (x ∷ xs) = Above x xs × IsRising xs

pub count_if-insert :
    (p : String → Bool) (a : String) (l : List String)
    → count_if p (insert a l) ≡ count_if p (a ∷ l)
unfolding insert
count_if-insert p a [] = refl
count_if-insert p a (x ∷ xs) = ground (arith, count_if-insert p a xs)

-- Sorting keeps what is in the list, as often.
pub count_if-sort : (p : String → Bool) (l : List String) → count_if p (sort l) ≡ count_if p l
unfolding sort
count_if-sort p [] = refl
count_if-sort p (x ∷ xs) =
    count_if-insert p x (sort xs) ∙ ap (λ (n : ℕ). if p x then suc n else n) (count_if-sort p xs)

contains-insert : (a b : String) (l : List String) → contains (insert a l) b ≡ contains (a ∷ l) b
unfolding insert
contains-insert a b [] = refl
contains-insert a b (x ∷ xs) = ground (arith, contains-insert a b xs)

pub contains-sort : (b : String) (l : List String) → contains (sort l) b ≡ contains l b
unfolding sort
contains-sort b [] = refl
contains-sort b (x ∷ xs) =
    contains-insert x b (sort xs) ∙ ap (λ c. str_eq x b || c) (contains-sort b xs)

length-insert : (a : String) (l : List String) → length (insert a l) ≡ suc (length l)
unfolding insert
length-insert a [] = refl
length-insert a (x ∷ xs) = ground (arith, length-insert a xs)

pub length-sort : (l : List String) → length (sort l) ≡ length l
unfolding sort
length-sort [] = refl
length-sort (x ∷ xs) = length-insert x (sort xs) ∙ ap suc (length-sort xs)

Above-insert :
    (a b : String) (l : List String) → str_lt a b ≡ true → Above a l → Above a (insert b l)
unfolding insert
Above-insert a b [] h v = (h, tt)
Above-insert a b (x ∷ xs) h v = ground (arith, Above-insert a b xs h v.1)

Above-weaken : (a b : String) (l : List String) → str_lt a b ≡ true → Above b l → Above a l
Above-weaken a b [] h v = tt
Above-weaken a b (x ∷ xs) h v = (str_lt_trans a b x h v.0, Above-weaken a b xs h v.1)

insert-IsRising :
    (a : String) (l : List String) → contains l a ≡ false → IsRising l → IsRising (insert a l)
unfolding insert
insert-IsRising a [] h v = (tt, tt)
insert-IsRising a (x ∷ xs) h v = ground (
  arith,
  insert-IsRising a xs,
  Above-insert x a xs,
  Above-weaken a x xs,
  str_lt_total x a,
  eq_iff x a,
)

-- Sorting distinct names makes them rise.
pub sort-IsRising : (l : List String) → IsDistinct l → IsRising (sort l)
unfolding sort
sort-IsRising [] d = tt
sort-IsRising (x ∷ xs) d =
    insert-IsRising x (sort xs) (contains-sort x xs ∙ d.0) (sort-IsRising xs d.1)

count_below_first : (a : String) (l : List String) → Above a l → count_below a l ≡ 0
count_below_first a [] v = refl
count_below_first a (x ∷ xs) v = ground (arith, str_lt_asymm a x v.0, count_below_first a xs v.1)

pub Above-contains :
    (a b : String) (l : List String) → Above a l → contains l b ≡ true → str_lt a b ≡ true
Above-contains a b [] v h = absurd (ground arith)
Above-contains a b (x ∷ xs) v h = ground (arith, eq_iff x b, Above-contains a b xs v.1)

-- The index of a name in a rising list is the number of names below it.
pub index-rising :
    (l : List String) (a : String)
    → IsRising l
    → index l a ≡ (if contains l a then some (count_below a l) else none)
unfolding index
index-rising [] a v = refl
index-rising (x ∷ xs) a v = ground (
  arith,
  eq_iff x a,
  str_lt_irrefl a,
  count_below_first x xs v.0,
  Above-contains x a xs v.0,
  index-rising xs a v.1,
)

pub count_if_ext :
    (p q : String → Bool) (l : List String)
    → ((a : String) → contains l a ≡ true → p a ≡ q a)
    → count_if p l ≡ count_if q l
count_if_ext p q [] h = refl
count_if_ext p q (x ∷ xs) h =
    ground (arith, eq_iff x x, h x, count_if_ext p q xs (λ a k. h a (ground arith)))

-- In a rising list, the names that have fewer than `d` names below them are the first `d`.
pub count_if-count_below :
    (d : ℕ) (l : List String)
    → IsRising l
    → count_if (λ a. ltb (count_below a l) d) l ≡ min d (length l)
count_if-count_below d [] v = omega arith
count_if-count_below d (x ∷ xs) v = ground (
  arith,
  count_below_first x xs v.0,
  str_lt_irrefl x,
  count_if_ext (λ a. ltb (count_below a (x ∷ xs)) d) (λ a. ltb (count_below a xs) (d - 1)) xs
      (λ a k. ground (arith, Above-contains x a xs v.0 k)),
  count_if-count_below (d - 1) xs v.1,
)
