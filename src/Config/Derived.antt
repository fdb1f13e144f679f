-- ===== src/Config/Derived.antt =====
-- The name that antsd/internal/config/nodename.go derives from a network card.
use zero_config_ha_cluster.Common.{
  ℕ, zero, suc, ◌/◌, ◌%◌, ◌≤◌, ◌<◌, ◌≡◌, refl, sym, subst, ◌∙◌, ◌⊎◌, inl, inr, Bool, true, false,
  ◌&&◌, List, [], ◌∷◌, ◌++◌, none, some, String, len, ◌+++◌, str_lt, ◌==◌, length, any, codes,
  codes-append, len-append, sort_by, IsOrdered, In, here, there, In-sort_by, any-sort_by,
  sort_by-IsOrdered, arith, Option-cases, Bool-cases, str_lt_irrefl,
}
use zero_config_ha_cluster.Config.Pattern.{nonempty}
use zero_config_ha_cluster.Config.NodeName.{
  node_name_prefix, is_alnum, is_inner, matches_rest, matches_name, validate_node_name, Interface,
  Sysfs, is_usable, hex_digit, hex, name_of_mac, first_usable, default_node_name,
}

-- Every number of the list is a byte.
abbrev pub AreBytes : List ℕ → Type 0
AreBytes [] = Unit {0}
AreBytes (b ∷ bs) = (b < 256) × AreBytes bs

-- A text of lower-case letters and digits.
abbrev all_alnum : List ℕ → Bool
all_alnum [] = true
all_alnum (c ∷ cs) = is_alnum c && all_alnum cs

abbrev below : ℕ → (ℕ → Bool) → Bool
below zero p = true
below (suc n) p = p n && below n p

below_sound : (n : ℕ) (p : ℕ → Bool) (x : ℕ) → below n p ≡ true → x < n → p x ≡ true
below_sound zero p x h lt = absurd (omega arith)
below_sound (suc n) p x h lt = ground (arith, below_sound n p x)

digit_is_fine :
    (d : ℕ) → d < 16 → ((len (hex_digit d) == 1) && all_alnum (codes (hex_digit d))) ≡ true
unfolding hex_digit is_alnum
digit_is_fine d h =
    below_sound 16 (λ x. (len (hex_digit x) == 1) && all_alnum (codes (hex_digit x))) d refl h

all_alnum-append : (s t : List ℕ) → all_alnum (s ++ t) ≡ (all_alnum s && all_alnum t)
all_alnum-append [] t = refl
all_alnum-append (c ∷ s) t = ground (arith, all_alnum-append s t)

hex_is_fine : (b : ℕ) → b < 256 → (len (hex b) ≡ 2) × (all_alnum (codes (hex b)) ≡ true)
unfolding hex
hex_is_fine b h = ground (
  arith,
  digit_is_fine (b / 16),
  digit_is_fine (b % 16),
  len-append (hex_digit (b / 16)) (hex_digit (b % 16)),
  codes-append (hex_digit (b / 16)) (hex_digit (b % 16)),
  all_alnum-append (codes (hex_digit (b / 16))) (codes (hex_digit (b % 16))),
)

matches_rest-alnum : (l : List ℕ) → all_alnum l ≡ true → matches_rest l ≡ true
unfolding matches_rest is_inner
matches_rest-alnum [] h = refl
matches_rest-alnum (c ∷ []) h = ground arith
matches_rest-alnum (c ∷ d ∷ cs) h = ground (arith, matches_rest-alnum (d ∷ cs))

first_usable-is_usable :
    (fs : Sysfs) (l : List Interface) (i : Interface)
    → first_usable fs l ≡ some i
    → is_usable fs i ≡ true
unfolding first_usable
first_usable-is_usable fs [] i h = absurd (ground arith)
first_usable-is_usable fs (j ∷ l) i h = ground (arith, first_usable-is_usable fs l i)

first_usable-none :
    (fs : Sysfs) (l : List Interface) → first_usable fs l ≡ none → any (is_usable fs) l ≡ false
unfolding first_usable
first_usable-none fs [] h = refl
first_usable-none fs (j ∷ l) h = ground (arith, first_usable-none fs l)

-- No element with a lower name, in a list without one and so without a usable one.
any-and :
    {A : Type 0} (p q : A → Bool) (l : List A) → any q l ≡ false → any (λ x. p x && q x) l ≡ false
any-and p q [] h = refl
any-and p q (x ∷ l) h = ground (arith, any-and p q l)

first_usable-lowest :
    (fs : Sysfs) (l : List Interface) (i : Interface)
    → IsOrdered (λ j. j.name) l
    → first_usable fs l ≡ some i
    → any (λ j. is_usable fs j && str_lt j.name i.name) l ≡ false
unfolding first_usable
first_usable-lowest fs [] i o h = refl
first_usable-lowest fs (j ∷ l) i (a, o) h = ground (
  arith,
  first_usable-lowest fs l i,
  any-and (is_usable fs) (λ k. str_lt k.name j.name) l,
  str_lt_irrefl i.name,
)

prefix_matches :
    (l : List ℕ) → all_alnum l ≡ true → 1 ≤ length l → matches_name (codes "ants-" ++ l) ≡ true
unfolding matches_name matches_rest is_inner is_alnum
prefix_matches [] a h = absurd (omega arith)
prefix_matches (c ∷ l) a h = ground (arith, matches_rest-alnum (c ∷ l) a)

codes-nonempty : (s : String) → len s ≡ 6 → 1 ≤ length (codes s)
codes-nonempty String.[] h = absurd (ground arith)
codes-nonempty (String.◌∷◌ c s) h = omega arith

-- The prefix and six lower-case letters and digits make a valid name.
prefixed_is_valid :
    (s : String)
    → len s ≡ 6
    → all_alnum (codes s) ≡ true
    → validate_node_name (node_name_prefix +++ s) ≡ none
unfolding validate_node_name
prefixed_is_valid s l a =
    let m =
      subst (λ c. matches_name c ≡ true) (sym (codes-append "ants-" s))
        (prefix_matches (codes s) a (codes-nonempty s l)) in
    ground (arith, len-append "ants-" s, m, nonempty ("ants-" +++ s) m)

name_of_bytes :
    (a b c : ℕ)
    → a < 256
    → b < 256
    → c < 256
    → validate_node_name (name_of_mac (a ∷ b ∷ c ∷ [])) ≡ none
unfolding name_of_mac
name_of_bytes a b c p q r =
    let (f, g) = hex_is_fine a p in
    let (h, i) = hex_is_fine b q in
    let (j, k) = hex_is_fine c r in
    prefixed_is_valid (hex a +++ (hex b +++ hex c))
      (omega (arith, len-append (hex a) (hex b +++ hex c), len-append (hex b) (hex c), f, h, j))
      (ground (
        arith,
        codes-append (hex a) (hex b +++ hex c),
        codes-append (hex b) (hex c),
        all_alnum-append (codes (hex a)) (codes (hex b +++ hex c)),
        all_alnum-append (codes (hex b)) (codes (hex c)),
      ))

name_of_mac_is_valid :
    (mac : List ℕ) → AreBytes mac → 3 ≤ length mac → validate_node_name (name_of_mac mac) ≡ none
unfolding name_of_mac
name_of_mac_is_valid [] h l = absurd (omega arith)
name_of_mac_is_valid (a ∷ []) h l = absurd (omega arith)
name_of_mac_is_valid (a ∷ b ∷ []) h l = absurd (omega arith)
name_of_mac_is_valid (a ∷ b ∷ c ∷ []) (p, (q, (r, _))) l = name_of_bytes a b c p q r
name_of_mac_is_valid (x ∷ a ∷ b ∷ c ∷ mac) (_, h) l =
    name_of_mac_is_valid (a ∷ b ∷ c ∷ mac) h (omega arith)

-- Every interface that the system lists has a hardware address of bytes.
abbrev pub HaveBytes : List Interface → Type 0
HaveBytes [] = Unit {0}
HaveBytes (i ∷ is) = AreBytes i.hardware_addr × HaveBytes is

AreBytes-In : (i : Interface) (l : List Interface) → HaveBytes l → In i l → AreBytes i.hardware_addr
AreBytes-In i [] h n = elim n [ ]
AreBytes-In i (j ∷ l) (b, h) (here e) = subst (λ x. AreBytes x.hardware_addr) (sym e) b
AreBytes-In i (j ∷ l) (b, h) (there n) = AreBytes-In i l h n

first_usable-In :
    (fs : Sysfs) (l : List Interface) (i : Interface) → first_usable fs l ≡ some i → In i l
unfolding first_usable
first_usable-In fs [] i e = absurd (ground arith)
first_usable-In fs (j ∷ l) i e = elim (Bool-cases (is_usable fs j)) [
  | inl u ↦ here (ground arith)
  | inr u ↦ there (first_usable-In fs l i (ground arith))
]

is_usable-length : (fs : Sysfs) (i : Interface) → is_usable fs i ≡ true → 3 ≤ length i.hardware_addr
unfolding is_usable
is_usable-length fs i u = ground arith

-- Either no interface is usable and no name is derived, or the name is that of a usable interface
-- of the list, no usable interface of the list has a lower name, and, where the hardware addresses
-- consist of bytes, the name passes the validation.
pub default_node_name-lowest :
    (fs : Sysfs) (interfaces : List Interface)
    → HaveBytes interfaces
    → ((default_node_name fs interfaces ≡ none) × (any (is_usable fs) interfaces ≡ false))
      ⊎ ((i : Interface) × In i interfaces
          × (is_usable fs i ≡ true)
          × (any (λ j. is_usable fs j && str_lt j.name i.name) interfaces ≡ false)
          × (default_node_name fs interfaces ≡ some (name_of_mac i.hardware_addr))
          × (validate_node_name (name_of_mac i.hardware_addr) ≡ none))
unfolding default_node_name
default_node_name-lowest fs interfaces h =
    let sorted = sort_by (λ j. j.name) interfaces in
    elim (Option-cases (first_usable fs sorted)) [
      | inl e ↦ inl (
        ground arith,
        sym (any-sort_by (λ j. j.name) (is_usable fs) interfaces) ∙ first_usable-none fs sorted e,
      )
      | inr (i, e) ↦
          let n = In-sort_by (λ j. j.name) i interfaces (first_usable-In fs sorted i e) in
          let u = first_usable-is_usable fs sorted i e in
          inr (
            i,
            n,
            u,
            sym (any-sort_by (λ j. j.name) (λ j. is_usable fs j && str_lt j.name i.name) interfaces)
                ∙ first_usable-lowest fs sorted i (sort_by-IsOrdered (λ j. j.name) interfaces) e,
            ground arith,
            name_of_mac_is_valid i.hardware_addr (AreBytes-In i interfaces h n)
                (is_usable-length fs i u),
          )
    ]
