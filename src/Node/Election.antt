-- ===== src/Node/Election.antt =====
-- The leaderless election of antsd/internal/node/role.go: every machine computes its rank and its
-- role from the member list alone.
use mathlib.Core.Option
use zero_config_ha_cluster.Common.{
  ℕ, zero, suc, ◌%◌, ◌≤◌, ◌<◌, min, ◌≡◌, refl, sym, ap, ◌∙◌, Bool, true, false, List, [], ◌∷◌,
  Option, none, some, String, str_lt, ltb, if◌then◌else◌, count_if, length, contains, str_lt_irrefl,
  str_lt_asymm, eq_iff, arith,
}
use zero_config_ha_cluster.Node.Role.{
  desired_server_count, Role, is_server, sort, index, rank, role_for_rank,
}
use zero_config_ha_cluster.Node.Sorting.{
  count_below, IsDistinct, Above, IsRising, count_if-sort, contains-sort, length-sort,
  sort-IsRising, Above-contains, index-rising, count_if-count_below, count_if_ext,
}

-- The role a machine takes when its bootstrap starts: `none` where it is not a member.
unfoldable pub elected_role : List String → String → Option Role
elected_role names self = Option.map (λ r. role_for_rank r (length names)) (rank names self)

-- For every number of machines above zero, the desired number of servers is odd, at most seven and
-- at most the number of machines, and no odd number within those bounds is larger.
pub desired_server_count_largest :
    (total k : ℕ)
    → 0 < total
    → k % 2 ≡ 1
    → k ≤ total
    → k ≤ 7
    → (desired_server_count total % 2 ≡ 1)
      × (desired_server_count total ≤ total)
      × (desired_server_count total ≤ 7)
      × (k ≤ desired_server_count total)
unfolding desired_server_count
desired_server_count_largest total k h o a b = ground arith

pub desired_server_count-le : (total : ℕ) → desired_server_count total ≤ total
unfolding desired_server_count
desired_server_count-le total = ground arith

-- Among distinct names, the rank of a member is the number of members whose name is lower, and a
-- machine that is no member gets the error.
pub rank_lem :
    (names : List String) (self : String)
    → IsDistinct names
    → rank names self ≡ (if contains names self then some (count_below self names) else none)
unfolding rank
rank_lem names self d = ground (
  arith,
  index-rising (sort names) self (sort-IsRising names d),
  contains-sort self names,
  count_if-sort (λ x. str_lt x self) names,
)

index-injective :
    (l : List String) (a b : String) (r : ℕ) → index l a ≡ some r → index l b ≡ some r → a ≡ b
unfolding index
index-injective [] a b r h k = absurd (ground arith)
index-injective (x ∷ xs) a b zero h k = ground (arith, eq_iff x a, eq_iff x b)
index-injective (x ∷ xs) a b (suc r) h k = ground (arith, index-injective xs a b r)

-- Two machines that compute the same rank from the same list are one machine.
pub rank-injective :
    (names : List String) (a b : String) (r : ℕ)
    → rank names a ≡ some r
    → rank names b ≡ some r
    → a ≡ b
unfolding rank
rank-injective names a b r h k = index-injective (sort names) a b r h k

-- Two lists hold the same names.
abbrev pub SameNames : List String → List String → Type 0
SameNames xs ys = (a : String) → contains xs a ≡ contains ys a

Above-absent : (x : String) (xs : List String) → Above x xs → contains xs x ≡ false
Above-absent x xs v = ground (arith, Above-contains x x xs v, str_lt_irrefl x)

heads_eq :
    (x y : String) (xs ys : List String)
    → Above x xs
    → Above y ys
    → SameNames (x ∷ xs) (y ∷ ys)
    → x ≡ y
heads_eq x y xs ys v w h = ground (
  arith,
  h x,
  h y,
  eq_iff x x,
  eq_iff y y,
  eq_iff x y,
  eq_iff y x,
  Above-contains x y xs v,
  Above-contains y x ys w,
  str_lt_asymm x y,
)

tails_same :
    (x y a : String) (xs ys : List String)
    → x ≡ y
    → contains xs x ≡ false
    → contains ys y ≡ false
    → contains (x ∷ xs) a ≡ contains (y ∷ ys) a
    → contains xs a ≡ contains ys a
tails_same x y a xs ys e p q h = ground (arith, eq_iff x a, eq_iff y a)

IsRising-unique : (xs ys : List String) → IsRising xs → IsRising ys → SameNames xs ys → xs ≡ ys
IsRising-unique [] [] v w h = refl
IsRising-unique [] (y ∷ ys) v w h = absurd (ground (arith, h y, eq_iff y y))
IsRising-unique (x ∷ xs) [] v w h = absurd (ground (arith, h x, eq_iff x x))
IsRising-unique (x ∷ xs) (y ∷ ys) v w h =
    let e = heads_eq x y xs ys v.0 w.0 h in
    let same = λ (a : String).
      tails_same x y a xs ys e (Above-absent x xs v.0) (Above-absent y ys w.0) (h a) in
    ground (arith, e, IsRising-unique xs ys v.1 w.1 same)

-- Machines that list the same distinct members, in whatever order, compute the same rank for each
-- name.
pub rank_same_members :
    (xs ys : List String) (self : String)
    → IsDistinct xs
    → IsDistinct ys
    → SameNames xs ys
    → rank xs self ≡ rank ys self
unfolding rank
rank_same_members xs ys self d e h =
    ap (λ l. index l self)
      (IsRising-unique (sort xs) (sort ys) (sort-IsRising xs d) (sort-IsRising ys e)
        (λ a. contains-sort a xs ∙ h a ∙ sym (contains-sort a ys)))

pub elects_server : Option Role → Bool
elects_server none = false
elects_server (some r) = is_server r

elects_server_lem :
    (names : List String) (a : String)
    → IsDistinct names
    → contains names a ≡ true
    → elects_server (elected_role names a)
      ≡ ltb (count_below a names) (desired_server_count (length names))
unfolding elected_role elects_server role_for_rank
elects_server_lem names a d h = ground (arith, rank_lem names a d)

-- When every member of a list of distinct names takes the role it computes, exactly the desired
-- number of them become servers.
pub elected_server_count :
    (names : List String)
    → IsDistinct names
    → count_if (λ a. elects_server (elected_role names a)) names
      ≡ desired_server_count (length names)
elected_server_count names d = ground (
  arith,
  count_if_ext (λ a. elects_server (elected_role names a))
      (λ a. ltb (count_below a names) (desired_server_count (length names))) names
      (λ a h. elects_server_lem names a d h),
  below,
  desired_server_count-le (length names),
)
  where
    below :
        count_if (λ a. ltb (count_below a names) (desired_server_count (length names))) names
        ≡ min (desired_server_count (length names)) (length names)
    below =
        count_if_ext (λ a. ltb (count_below a names) (desired_server_count (length names)))
          (λ a. ltb (count_below a (sort names)) (desired_server_count (length names))) names
          (λ a h.
            ap (λ n. ltb n (desired_server_count (length names)))
              (sym (count_if-sort (λ x. str_lt x a) names)))
        ∙ sym (
            count_if-sort
              (λ a. ltb (count_below a (sort names)) (desired_server_count (length names))) names)
        ∙ count_if-count_below (desired_server_count (length names)) (sort names)
            (sort-IsRising names d)
        ∙ ap (min (desired_server_count (length names))) (length-sort names)
