-- ===== src/Config/NodeName.antt =====
-- antsd/internal/config/nodename.go: the name of the machine, derived from a network card or given,
-- and its validation. The network interfaces and the entries of sysfs are given.
use zero_config_ha_cluster.Common.{
  ℕ, ◌/◌, ◌%◌, Bool, true, false, not, ◌&&◌, ◌||◌, List, [], ◌∷◌, Option, none, some, String, len,
  ◌+++◌, str_eq, ltb, ◌==◌, if◌then◌else◌, length, codes, within, sort_by,
}

-- `nodeNamePrefix` and `nodeNameMaxLength`.
abbrev pub node_name_prefix : String
node_name_prefix = "ants-"

abbrev pub node_name_max_length : ℕ
node_name_max_length = 63

-- The classes `[a-z0-9]` and `[-a-z0-9]` of `nodeNamePattern`.
unfoldable pub is_alnum : ℕ → Bool
is_alnum c = within b'a' b'z' c || within b'0' b'9' c

unfoldable pub is_inner : ℕ → Bool
unfolding is_alnum
is_inner c = c == b'-' || is_alnum c

-- What `nodeNamePattern` accepts behind the first character.
unfoldable pub matches_rest : List ℕ → Bool
unfolding is_alnum is_inner
matches_rest [] = true
matches_rest (c ∷ []) = is_alnum c
matches_rest (c ∷ d ∷ cs) = is_inner c && matches_rest (d ∷ cs)

-- `nodeNamePattern.MatchString`.
unfoldable pub matches_name : List ℕ → Bool
unfolding matches_rest
matches_name [] = false
matches_name (c ∷ cs) = is_alnum c && matches_rest cs

-- The errors of `validateNodeName`.
pub data NameError : Type 0 where
  empty too_long malformed : NameError

-- `validateNodeName`; `none` is no error.
unfoldable pub validate_node_name : String → Option NameError
unfolding matches_name
validate_node_name name =
    if str_eq name ""
    then some NameError.empty
    else if ltb node_name_max_length (len name)
    then some too_long
    else if not (matches_name (codes name))
    then some malformed
    else none

-- What is read of a `net.Interface`.
pub record Interface : Type 0 where
  pub name : String
  pub loopback : Bool
  pub hardware_addr : List ℕ

-- What `os.Stat` finds below `sysfsNetDir`: the directory, and the device entry of an interface.
pub record Sysfs : Type 0 where
  pub present : Bool
  pub has_device : String → Bool

-- `isPhysicalInterface`.
unfoldable pub is_physical_interface : Sysfs → String → Bool
is_physical_interface fs name = if not fs.present then true else fs.has_device name

-- The two conditions that make `defaultNodeName` skip an interface, negated.
unfoldable pub is_usable : Sysfs → Interface → Bool
unfolding is_physical_interface
is_usable fs i =
    if i.loopback || ltb (length i.hardware_addr) 3 then false else is_physical_interface fs i.name

-- A digit of `%02x`, for a number below 16.
unfoldable pub hex_digit : ℕ → String
hex_digit d =
    if d == 0
    then "0"
    else if d == 1
    then "1"
    else if d == 2
    then "2"
    else if d == 3
    then "3"
    else if d == 4
    then "4"
    else if d == 5
    then "5"
    else if d == 6
    then "6"
    else if d == 7
    then "7"
    else if d == 8
    then "8"
    else if d == 9
    then "9"
    else if d == 10
    then "a"
    else if d == 11
    then "b"
    else if d == 12
    then "c"
    else if d == 13
    then "d"
    else if d == 14
    then "e"
    else "f"

-- `%02x` of a byte.
unfoldable pub hex : ℕ → String
hex b = hex_digit (b / 16) +++ hex_digit (b % 16)

-- `fmt.Sprintf` of the last three bytes behind the prefix.
unfoldable pub name_of_mac : List ℕ → String
unfolding hex
name_of_mac (a ∷ b ∷ c ∷ []) = node_name_prefix +++ (hex a +++ (hex b +++ hex c))
name_of_mac (x ∷ mac) = name_of_mac mac
name_of_mac [] = node_name_prefix

-- The loop of `defaultNodeName`; `none` is the error behind it.
unfoldable pub first_usable : Sysfs → List Interface → Option Interface
first_usable fs [] = none
first_usable fs (i ∷ is) = if is_usable fs i then some i else first_usable fs is

-- `defaultNodeName`, for the interfaces that the system lists.
unfoldable pub default_node_name : Sysfs → List Interface → Option String
unfolding first_usable
default_node_name fs interfaces = elim (first_usable fs (sort_by (λ i. i.name) interfaces)) [
  | none ↦ none
  | some i ↦ some (name_of_mac i.hardware_addr)
]
