-- ===== src/Node/Role.antt =====
-- antsd/internal/node/role.go: the size of the control plane, the roles, and the ranks that elect
-- them. A total is a number of machines, so it is not negative.
use zero_config_ha_cluster.Common.{
  ℕ, suc, ◌-◌, ◌%◌, min, Bool, true, false, List, [], ◌∷◌, Option, none, some, String, str_eq,
  str_lt, ltb, leb, ◌==◌, if◌then◌else◌,
}
use mathlib.Core.Option
use zero_config_ha_cluster.Node.State.{State, stable_server, stable_agent}

-- `MaxServers`.
abbrev pub max_servers : ℕ
max_servers = 7

-- `DesiredServerCount`.
unfoldable pub desired_server_count : ℕ → ℕ
desired_server_count total =
    if leb total 0
    then 0
    else (let count = min total max_servers in if count % 2 == 0 then count - 1 else count)

-- `Role` is a string: the two constants, and any other text; `unknown ""` is the zero value.
pub data Role : Type 0 where
  server agent : Role
  unknown : String → Role

abbrev pub unset : Role
unset = unknown ""

-- `r == RoleServer` and `r == RoleAgent`.
abbrev pub is_server : Role → Bool
is_server server = true
is_server _ = false

abbrev pub is_agent : Role → Bool
is_agent agent = true
is_agent _ = false

-- `a == b` on roles.
unfoldable pub role_eq : Role → Role → Bool
role_eq server server = true
role_eq agent agent = true
role_eq (unknown s) (unknown t) = str_eq s t
role_eq _ _ = false

-- `Role(text)` and `string(role)`.
unfoldable pub role_of_string : String → Role
role_of_string t =
    if str_eq t "server" then server else if str_eq t "agent" then agent else unknown t

unfoldable pub role_to_string : Role → String
role_to_string server = "server"
role_to_string agent = "agent"
role_to_string (unknown t) = t

-- `Role.StableState`.
unfoldable pub stable_state : Role → State
stable_state r = if is_server r then stable_server else stable_agent

-- `Role.Other`.
unfoldable pub other : Role → Role
other r = if is_server r then agent else server

-- `slices.Sort`, as an insertion sort.
unfoldable pub insert : String → List String → List String
insert a [] = a ∷ []
insert a (x ∷ xs) = let rest = insert a xs in if str_lt x a then x ∷ rest else a ∷ x ∷ xs

unfoldable pub sort : List String → List String
unfolding insert
sort [] = []
sort (x ∷ xs) = insert x (sort xs)

-- `slices.Index`; `none` is -1.
unfoldable pub index : List String → String → Option ℕ
index [] a = none
index (x ∷ xs) a = let rest = Option.map suc (index xs a) in if str_eq x a then some 0 else rest

-- `Rank`; `none` is the error.
unfoldable pub rank : List String → String → Option ℕ
rank names self = let sorted = sort names in index sorted self

-- `RoleForRank`.
unfoldable pub role_for_rank : ℕ → ℕ → Role
role_for_rank rank total = if ltb rank (desired_server_count total) then server else agent
