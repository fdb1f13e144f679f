-- ===== src/LogBridge.antt =====
-- antsd/internal/logbridge/logbridge.go: the lines of the HashiCorp libraries, as records of antsd's
-- own logger. A line is the list of its characters' numbers. A component's name consists of ASCII
-- characters, so that `strings.EqualFold` is told by their case and two more characters.
pub mod Lines
use zero_config_ha_cluster.Common.{
  ℕ, ◌+◌, Bool, true, false, ◌&&◌, List, [], ◌∷◌, ◌++◌, map, Option, none, some, String, ◌==◌,
  if◌then◌else◌, codes, codes_eq, within, trim_space,
}
use zero_config_ha_cluster.Config.Printing.{Level, debug, info, warn, error}

-- `levels`.
unfoldable pub level_of : List ℕ → Option Level
level_of name =
    if codes_eq name (codes "TRACE")
    then some debug
    else if codes_eq name (codes "DEBUG")
    then some debug
    else if codes_eq name (codes "INFO")
    then some info
    else if codes_eq name (codes "WARN")
    then some warn
    else if codes_eq name (codes "ERR")
    then some error
    else if codes_eq name (codes "ERROR")
    then some error
    else none

-- `level < slog.LevelWarn`.
unfoldable pub is_below_warn : Level → Bool
is_below_warn debug = true
is_below_warn info = true
is_below_warn _ = false

-- What stands before and behind the first occurrence of a character.
abbrev pub cut_at : ℕ → List ℕ → Option (List ℕ × List ℕ)
cut_at c [] = none
cut_at c (d ∷ ds) =
    if d == c
    then some ([], ds)
    else elim (cut_at c ds) [ none ↦ none | some (before, after) ↦ some (d ∷ before, after) ]

-- `parseLine`, once the line is trimmed.
unfoldable pub parse_trimmed : List ℕ → Level × List ℕ
unfolding level_of
parse_trimmed [] = (info, [])
parse_trimmed (c ∷ cs) =
    if c == b'['
    then elim (cut_at b']' cs) [
      | none ↦ (info, c ∷ cs)
      | some (name, rest) ↦ elim (level_of name) [
        | none ↦ (info, c ∷ cs)
        | some level ↦ (level, trim_space rest)
      ]
    ]
    else (info, c ∷ cs)

-- `parseLine`.
unfoldable pub parse_line : List ℕ → Level × List ℕ
unfolding parse_trimmed
parse_line line = parse_trimmed (trim_space line)

-- `strings.Cut` at a colon and a space.
abbrev pub cut_colon : List ℕ → Option (List ℕ × List ℕ)
cut_colon [] = none
cut_colon (c ∷ []) = none
cut_colon (c ∷ d ∷ ds) =
    if c == b':' && d == 32
    then some ([], ds)
    else elim (cut_colon (d ∷ ds)) [ none ↦ none | some (name, rest) ↦ some (c ∷ name, rest) ]

-- `strings.EqualFold` on a name and one of ASCII characters: U+017F is an s, and U+212A a k.
unfoldable pub fold : ℕ → ℕ
fold c =
    if within b'A' b'Z' c then c + 32 else if c == 383 then b's' else if c == 8_490 then b'k' else c

unfoldable pub equal_fold : List ℕ → List ℕ → Bool
unfolding fold
equal_fold name component = codes_eq (map fold name) (map fold component)

-- The message without the component's own name.
unfoldable pub without_name : List ℕ → List ℕ → List ℕ
unfolding equal_fold
without_name component msg = elim (cut_colon msg) [
  | none ↦ msg
  | some (name, rest) ↦ if equal_fold name component then rest else msg
]

-- `writer.tag`.
unfoldable pub tag : List ℕ → List ℕ → List ℕ
unfolding without_name
tag component msg = b'[' ∷ (component ++ (b']' ∷ 32 ∷ without_name component msg))

-- `writer`; the logger is what it hands its records to.
pub record Writer : Type 0 where
  pub component : List ℕ
  pub quiet : Bool

-- `writer.Write`: the record that is logged, if the line is not dropped.
unfoldable pub write : Writer → List ℕ → Option (Level × List ℕ)
unfolding parse_line tag
write w line =
    let (level, msg) = parse_line line in
    if w.quiet && is_below_warn level then none else some (level, tag w.component msg)
