-- ===== src/Discovery.antt =====
-- antsd/internal/discovery/mdns.go: which of the mDNS entries are reported as peers. The mDNS library
-- is outside; the address of an entry is its IPv4 address and port as one text.
pub mod Peers
pub mod Lookups
use zero_config_ha_cluster.Common.{
  ℕ, zero, suc, ◌-◌, ◌≡◌, refl, sym, ap, ◌∙◌, Bool, true, false, not, ◌&&◌, ◌||◌, List, [], ◌∷◌,
  ◌++◌, Option, none, some, String, ◌+++◌, str_eq, leb, if◌then◌else◌, length, codes, codes_eq,
  contains, any, arith, eq_iff, eq_refl, Bool-cases, inl, inr,
}

-- `serviceName` and `instanceSuffix`.
unfoldable pub service_name : String → String
service_name cluster_name = "_antsd-" +++ (cluster_name +++ "._tcp")

unfoldable pub instance_suffix : String → String
unfolding service_name
instance_suffix cluster_name = "." +++ (service_name cluster_name +++ ("." +++ ("local" +++ ".")))

-- `strings.HasSuffix`.
abbrev skip : ℕ → List ℕ → List ℕ
skip zero cs = cs
skip (suc n) [] = []
skip (suc n) (c ∷ cs) = skip n cs

unfoldable pub has_suffix : String → String → Bool
has_suffix s suffix =
    let a = codes s in
    let b = codes suffix in leb (length b) (length a) && codes_eq (skip (length a - length b) a) b

-- What is read of a `mdns.ServiceEntry`: `none` for an entry without an IPv4 address.
pub record ServiceEntry : Type 0 where
  pub name : String
  pub addr : Option String

-- `Discoverer`: the addresses that are known, and those that `onFind` was called with, newest first.
pub record Discoverer : Type 0 where
  pub cluster_name : String
  pub seen : List String
  pub found : List String

-- `New`.
abbrev pub new_discoverer : String → Discoverer
new_discoverer cluster_name = record { cluster_name = cluster_name; seen = []; found = [] }

-- `handleEntry` behind the two tests of the entry.
unfoldable pub handle_addr : String → Discoverer → Discoverer
handle_addr addr d =
    if contains d.seen addr then d else record d { seen = addr ∷ d.seen; found = addr ∷ d.found }

-- The entry is one of this cluster, by its name.
unfoldable pub is_instance : String → ServiceEntry → Bool
unfolding has_suffix instance_suffix
is_instance cluster_name e = has_suffix e.name (instance_suffix cluster_name)

-- `handleEntry`.
unfoldable pub handle_entry : ServiceEntry → Discoverer → Discoverer
unfolding handle_addr
handle_entry entry d =
    if not (is_instance d.cluster_name entry)
    then d
    else elim entry.addr [ none ↦ d | some addr ↦ handle_addr addr d ]

-- The loop of `lookupOnce`, and of all lookups one behind the other.
unfoldable pub handle_entries : List ServiceEntry → Discoverer → Discoverer
unfolding handle_entry
handle_entries [] d = d
handle_entries (e ∷ es) d = handle_entries es (handle_entry e d)
