-- ===== src/Serfnode/Events.antt =====
-- antsd/internal/serfnode/serfnode.go: the events of Serf as the orchestrator gets them, through a
-- channel that drops what it cannot hold; and what handleSerfEvent and handleUserEvent of
-- antsd/internal/cluster/manager.go make of them.
use zero_config_ha_cluster.Common.{
  ℕ, List, [], ◌∷◌, ◌++◌, String, str_eq, ltb, if◌then◌else◌, length,
}
use zero_config_ha_cluster.Cluster.Manager.{
  Payload, EventName, bootstrap_requested, bootstrap_start, rescale_convert, forget_me, forgotten,
  unknown_event,
}
use zero_config_ha_cluster.Cluster.Loop.{Input, membership_change}

-- `EventType`.
pub data EventType : Type 0 where
  member_join member_leave member_failed member_update member_reap : EventType
  user query : EventType

-- `EventType.String`.
unfoldable pub event_type_to_string : EventType → String
event_type_to_string member_join = "member-join"
event_type_to_string member_leave = "member-leave"
event_type_to_string member_failed = "member-failed"
event_type_to_string member_update = "member-update"
event_type_to_string member_reap = "member-reap"
event_type_to_string user = "user"
event_type_to_string query = "query"

-- The event types of the Serf library; `other` is any other number.
pub data LibraryType : Type 0 where
  event_member_join event_member_leave event_member_failed event_member_update : LibraryType
  event_member_reap event_user event_query other : LibraryType

-- `mapMemberEventType`.
unfoldable pub map_member_event_type : LibraryType → EventType
map_member_event_type event_member_join = member_join
map_member_event_type event_member_leave = member_leave
map_member_event_type event_member_failed = member_failed
map_member_event_type event_member_update = member_update
map_member_event_type event_member_reap = member_reap
map_member_event_type event_query = query
map_member_event_type _ = user

-- `Event`. A payload is a text.
pub record Event : Type 0 where
  pub type : EventType
  pub node_ip : String
  pub name : String
  pub tags : List (String × String)
  pub payload : String

-- What is read of a member of a `serflib.MemberEvent`.
pub record RawMember : Type 0 where
  pub name : String
  pub addr : String
  pub tags : List (String × String)

-- `serflib.Event`, as far as `handleRawEvent` tells it apart.
pub data RawEvent : Type 0 where
  member_event : LibraryType → List RawMember → RawEvent
  user_event : String → String → RawEvent
  ignored : RawEvent

-- The capacity of `eventCh`.
abbrev pub event_ch_capacity : ℕ
event_ch_capacity = 64

-- `dispatch`, to a channel that holds these events, the oldest first.
unfoldable pub dispatch : Event → List Event → List Event
dispatch e ch = if ltb (length ch) event_ch_capacity then ch ++ (e ∷ []) else ch

-- The event of a member.
unfoldable pub event_of_member : LibraryType → RawMember → Event
event_of_member t m = record {
  type = map_member_event_type t;
  node_ip = m.addr;
  name = m.name;
  tags = m.tags;
  payload = "";
}

-- The loop of `handleRawEvent` over the members.
unfoldable pub dispatch_members : LibraryType → List RawMember → List Event → List Event
unfolding dispatch event_of_member
dispatch_members t [] ch = ch
dispatch_members t (m ∷ ms) ch = dispatch_members t ms (dispatch (event_of_member t m) ch)

-- `handleRawEvent`.
unfoldable pub handle_raw_event : RawEvent → List Event → List Event
unfolding dispatch_members
handle_raw_event (member_event t ms) ch = dispatch_members t ms ch
handle_raw_event (user_event name payload) ch =
    dispatch (record { type = user; node_ip = ""; name = name; tags = []; payload = payload }) ch
handle_raw_event ignored ch = ch

-- The constants that `handleUserEvent` compares a name with.
unfoldable pub event_name : String → EventName
event_name name =
    if str_eq name "antsd:bootstrap-requested"
    then bootstrap_requested
    else if str_eq name "antsd:bootstrap-start"
    then bootstrap_start
    else if str_eq name "antsd:rescale-convert"
    then rescale_convert
    else if str_eq name "antsd:forget-me"
    then forget_me
    else if str_eq name "antsd:forgotten"
    then forgotten
    else unknown_event name

-- The text that is sent for a name.
unfoldable pub event_name_to_string : EventName → String
event_name_to_string bootstrap_requested = "antsd:bootstrap-requested"
event_name_to_string bootstrap_start = "antsd:bootstrap-start"
event_name_to_string rescale_convert = "antsd:rescale-convert"
event_name_to_string forget_me = "antsd:forget-me"
event_name_to_string forgotten = "antsd:forgotten"
event_name_to_string (unknown_event name) = name

-- The choice of `handleSerfEvent`; `decode` is the JSON decoding of a payload.
unfoldable pub input_of : (String → Payload) → Event → Input
unfolding event_name
input_of decode e = elim e.type [
  | user ↦ Input.user_event (event_name e.name) (decode e.payload)
  | _ ↦ membership_change
]
