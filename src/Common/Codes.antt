-- ===== src/Common/Codes.antt =====
-- Texts by the numbers of their characters, where the program looks inside them.
use Prim.Native.Nat.{ℕ, ◌+◌}
use Prim.Native.Char.{code}
use Prim.Native.String.{String, ◌++◌ as append}
use text.Mathlib.TextLemmas.{nil-append, cons-append}
use mathlib.Core.Path.{◌≡◌, ap, ◌∙◌}
use mathlib.Core.Bool.{Bool, true, false, ◌&&◌, ◌||◌}
use mathlib.Core.List.{List, [], ◌∷◌, ◌++◌, map}
use zero_config_ha_cluster.Common.Tests.{leb, ◌==◌, if◌then◌else◌}

abbrev pub codes : String → List ℕ
codes String.[] = []
codes (String.◌∷◌ c s) = code c ∷ codes s

-- A character class `[lo-hi]`.
abbrev pub within : ℕ → ℕ → ℕ → Bool
within lo hi c = leb lo c && leb c hi

pub codes-append : (s t : String) → codes (append s t) ≡ codes s ++ codes t
codes-append String.[] t = ap codes (nil-append t)
codes-append (String.◌∷◌ c s) t =
    ap codes (cons-append c s t) ∙ ap (λ l. code c ∷ l) (codes-append s t)

-- `strings.ToLower` of a character, as far as the result is an ASCII letter: beside the capital
-- letters of ASCII these are U+0130 and U+212A.
abbrev pub lower : ℕ → ℕ
lower c =
    if within b'A' b'Z' c then c + 32 else if c == 304 then b'i' else if c == 8490 then b'k' else c

abbrev pub codes_eq : List ℕ → List ℕ → Bool
codes_eq [] [] = true
codes_eq (c ∷ cs) (d ∷ ds) = (c == d) && codes_eq cs ds
codes_eq [] (d ∷ ds) = false
codes_eq (c ∷ cs) [] = false

-- Whether a text in lower case is the given one, which consists of ASCII characters.
abbrev pub lower_is : String → String → Bool
lower_is text word = codes_eq (map lower (codes text)) (codes word)

-- `unicode.IsSpace`.
abbrev pub is_space : ℕ → Bool
is_space c =
    within 9 13 c
    || (c == 32
        || (c == 133
            || (c == 160
                || (c == 5_760
                    || (within 8_192 8_202 c
                        || (c == 8_232
                            || (c == 8_233 || (c == 8_239 || (c == 8_287 || c == 12_288)))))))))

-- Whether `strings.TrimSpace` leaves nothing.
abbrev pub is_blank : List ℕ → Bool
is_blank [] = true
is_blank (c ∷ cs) = is_space c && is_blank cs

-- `strings.TrimSpace`, from both ends.
abbrev pub trim_left : List ℕ → List ℕ
trim_left [] = []
trim_left (c ∷ cs) = let rest = trim_left cs in if is_space c then rest else c ∷ cs

abbrev pub trim_right : List ℕ → List ℕ
trim_right [] = []
trim_right (c ∷ cs) = if is_blank (c ∷ cs) then [] else c ∷ trim_right cs

abbrev pub trim_space : List ℕ → List ℕ
trim_space cs = trim_right (trim_left cs)
