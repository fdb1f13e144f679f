-- ===== src/Serfnode/Library.antt =====
-- antsd/internal/serfnode/serfnode.go: the operations of the node on the Serf library, which is
-- there once `Start` has created it. The library acts on a world.
use zero_config_ha_cluster.Common.{
  ℕ, Bool, true, false, List, [], ◌∷◌, Option, none, some, String, if◌then◌else◌,
}
use zero_config_ha_cluster.Node.State.{State, to_string, starting}
use zero_config_ha_cluster.Cluster.View.{View}
use zero_config_ha_cluster.Serfnode.{state_tags, snapshot_members}

-- What the program calls of `serflib.Serf`. A call that can fail tells whether it succeeded.
pub record Serf (W : Type 0) : Type 0 where
  pub create : String → List (String × String) → W → W × Bool
  pub join : List String → W → W × Bool
  pub leave : W → W × Bool
  pub remove_failed_node_prune : String → W → W × Bool
  pub set_tags : List (String × String) → W → W × Bool
  pub user_event : String → String → W → W × Bool
  pub local_tags : W → List (String × String)
  pub local_addr : W → String
  pub members : W → View

-- The two fields of `Node` that the lock protects; `started` tells that `serf` is not nil.
pub record Node : Type 0 where
  pub name : String
  pub started : Bool

-- `New`.
abbrev pub new_node : Node
new_node = record { name = ""; started = false }

-- An error of these methods.
pub data NodeError : Type 0 where
  not_started failed : NodeError

-- The error that a call of the library returns.
abbrev pub as_error : {W : Type 0} → W × Bool → W × Option NodeError
as_error (w, ok) = (w, if ok then none else some failed)

module _ {W : Type 0} (s : Serf W) where
  -- `Start`, up to the discovery of peers: the tags are those of a starting node.
  unfoldable pub start : String → Node → W → W × Node × Option NodeError
  start name node w =
      let (w1, ok) = s.create name (("state", to_string starting) ∷ []) w in
      if ok then (w1, record { name = name; started = true }, none) else (w1, node, some failed)

  -- `Join` and `Leave`: without Serf there is nothing to do.
  unfoldable pub join : List String → Node → W → W × Option NodeError
  join addrs node w = if node.started then as_error (s.join addrs w) else (w, none)

  unfoldable pub leave : Node → W → W × Option NodeError
  leave node w = if node.started then as_error (s.leave w) else (w, none)

  -- `RemoveFailedNode`, `SetState` and `SendUserEvent`.
  unfoldable pub remove_failed_node : String → Node → W → W × Option NodeError
  remove_failed_node name node w =
      if node.started then as_error (s.remove_failed_node_prune name w) else (w, some not_started)

  unfoldable pub set_state : State → Node → W → W × Option NodeError
  set_state state node w =
      if node.started
      then as_error (s.set_tags (state_tags state (s.local_tags w)) w)
      else (w, some not_started)

  unfoldable pub send_user_event : String → String → Node → W → W × Option NodeError
  send_user_event name payload node w =
      if node.started then as_error (s.user_event name payload w) else (w, some not_started)

  -- `LocalIP`.
  unfoldable pub local_ip : Node → W → String
  local_ip node w = if node.started then s.local_addr w else ""

-- `admin.Snapshot`. A time is a number of nanoseconds.
pub record Snapshot : Type 0 where
  pub collected_at : ℕ
  pub node_name : String
  pub available : Bool
  pub members : View

-- `Snapshot`, at a time.
unfoldable pub snapshot : {W : Type 0} → Serf W → ℕ → Node → W → Snapshot
snapshot s now node w =
    if node.started
    then record {
      collected_at = now;
      node_name = node.name;
      available = true;
      members = snapshot_members (s.members w);
    }
    else record { collected_at = now; node_name = node.name; available = false; members = [] }
