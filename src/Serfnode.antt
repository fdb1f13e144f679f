-- ===== src/Serfnode.antt =====
-- antsd/internal/serfnode/serfnode.go: the state tag that a node publishes, the snapshot of the
-- membership, and the translation of raw events. The Serf library itself is outside.
pub mod Events
pub mod Delivery
pub mod Library
pub mod Guarantees
use zero_config_ha_cluster.Common.{
  ◌≡◌, refl, List, [], ◌∷◌, String, str_eq, if◌then◌else◌, eq_iff, arith, sort_by,
}
use zero_config_ha_cluster.Node.State.{State, to_string}
use zero_config_ha_cluster.Cluster.View.{Member, View, get_tag, state_tag}

-- `tags[key] = value` on a map.
unfoldable pub set_tag : String → String → List (String × String) → List (String × String)
set_tag k v [] = (k, v) ∷ []
set_tag k v ((j, w) ∷ m) = if str_eq j k then (k, v) ∷ m else (j, w) ∷ set_tag k v m

-- The tag set that `SetState` hands to Serf: the current one with the state's tag set.
unfoldable pub state_tags : State → List (String × String) → List (String × String)
unfolding set_tag
state_tags s current = set_tag "state" (to_string s) current

-- A member once it has published a state.
unfoldable pub retag : State → Member → Member
retag s m = record m { tags = state_tags s m.tags }

-- The membership once the member of that name has published a state.
unfoldable pub publish : String → State → View → View
publish name s [] = []
publish name s (m ∷ ms) = if str_eq m.name name then retag s m ∷ ms else m ∷ publish name s ms

-- `Snapshot().Members`, from the members that Serf lists, sorted by name.
unfoldable pub snapshot_members : View → View
snapshot_members ms = sort_by (λ m. m.name) ms

pub get_tag-set_tag :
    (k j v : String) (tags : List (String × String))
    → get_tag j (set_tag k v tags) ≡ (if str_eq k j then v else get_tag j tags)
unfolding get_tag set_tag
get_tag-set_tag k j v [] = refl
get_tag-set_tag k j v ((i, w) ∷ m) =
    ground (arith, eq_iff k j, eq_iff i k, eq_iff i j, get_tag-set_tag k j v m)

-- After `SetState` the state's tag is the new one, and every other tag is what it was.
pub get_tag-state_tags :
    (s : State) (k : String) (tags : List (String × String))
    → get_tag k (state_tags s tags) ≡ (if str_eq "state" k then to_string s else get_tag k tags)
unfolding state_tags
get_tag-state_tags s k tags = get_tag-set_tag "state" k (to_string s) tags

pub state_tag-retag : (s : State) (m : Member) → state_tag (retag s m) ≡ to_string s
unfolding state_tag retag
state_tag-retag s m = get_tag-state_tags s "state" m.tags
