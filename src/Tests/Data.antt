-- ===== src/Tests/Data.antt =====
-- Sample memberships and machines, in the words of antsd/internal/admin/server.go and
-- antsd/internal/cluster/manager.go.
use zero_config_ha_cluster.Common.{◌≡◌, refl, true, [], ◌∷◌, String, pos}
use zero_config_ha_cluster.Node.State.{State, State-discrete, to_string}
use zero_config_ha_cluster.Node.Role.{
  Role, server, agent, stable_state, other, role_of_string, sort,
}
use zero_config_ha_cluster.Node.Persist.{PersistedState, StateFile, parsed, load}
use zero_config_ha_cluster.Cluster.View.{
  Member, View, is_rescale_coordinator, is_etcd_membership_changing, lowest_named_alive_member_in,
  is_alive_in, is_alive, is_failed, state_tag, get_tag, tag_is, is_node_changing_etcd_membership,
  failed_members_names,
}
use zero_config_ha_cluster.Node.Tag.{of_string}
use zero_config_ha_cluster.Cluster.Failures.{
  durably_failed_members_names, round_evictable, deadline_of, track_failures, lookup, since_or,
  durably_from,
}
use zero_config_ha_cluster.Cluster.Joining.{maybe_join_cluster, maybe_start_joining_path}
use zero_config_ha_cluster.Cluster.Bootstrap.{maybe_install_agent, maybe_install_server}
use zero_config_ha_cluster.Cluster.Rescale.{
  maybe_rescale, evaluate, observe_failures, start_eviction, start_coordination_round,
}
use zero_config_ha_cluster.Cluster.Rounds.{
  on_rescale_convert, read_rescale_order, obey, start_convert,
}
use zero_config_ha_cluster.Cluster.Manager.{
  Manager, Env, Config, Payload, EventName, new_manager, set_state, save_state, object, wait_rejoin,
}
use zero_config_ha_cluster.Cluster.Rejoin.{choose_initial_state, on_rejoin_ready}
use zero_config_ha_cluster.Cluster.Loop.{
  membership_change, user_event, handle, handle_user_event, on_membership_change,
  on_k3s_operation_succeeded,
}
use zero_config_ha_cluster.Cluster.Invariant.Reach.{Reach, boots, turns, takes, succeeds}

abbrev pub member : String → String → String → Member
member name status state = record {
  name = name;
  ip = "10.0.0.9";
  status = status;
  tags = ("state", state) ∷ [];
}

-- A stable server and a failed one; three servers missing, with agents; a machine that waits.
abbrev pub one_failed : View
one_failed = member "a" "alive" "stable_server" ∷ member "b" "failed" "stable_server" ∷ []

abbrev pub too_few : View
too_few =
    member "a" "alive" "stable_server"
    ∷ member "b" "alive" "stable_agent"
    ∷ member "c" "alive" "stable_agent"
    ∷ []

abbrev pub waiting_two : View
waiting_two =
    member "a" "alive" "fb_bootstrap_waiting" ∷ member "b" "alive" "fb_bootstrap_waiting" ∷ []

abbrev pub one_joins : View
one_joins = member "a" "alive" "stable_server" ∷ member "b" "alive" "fb_joining_waiting" ∷ []

abbrev pub sees : View → Env
sees v = record {
  snapshot = λ _. v;
  now = λ _. 5;
  local_ip = "10.0.0.1";
  sends = λ _. true;
  removes = λ _ _. true;
}

abbrev pub config_of : String → Config
config_of name = record { node_name = name; rescale_enabled = true }

abbrev pub saved : Role → PersistedState
saved role = record {
  node_name = "a";
  role = role;
  boot_count = pos 1;
  first_boot_completed_at = 1;
  role_changed_at = 0;
}

-- A new manager in a state.
abbrev pub manager_in : String → State → Manager
manager_in name state = record (new_manager (config_of name) 3 2) {
  state = state;
  state_view = state;
}

-- A machine that boots as a server or an agent of a cluster, and that has rejoined it.
abbrev pub rejoining : Role → Manager
rejoining role = choose_initial_state (parsed (saved role)) (new_manager (config_of "a") 0 0)

pub rejoining-Reach : (role : Role) → Reach (rejoining role)
rejoining-Reach role = boots (config_of "a") 0 0 (parsed (saved role)) (rejoining role) refl

abbrev pub stable : Role → Manager
stable role =
    on_k3s_operation_succeeded (sees one_failed) (record (rejoining role) { operations = [] })

pub stable_server-Reach : Reach (stable server)
unfolding choose_initial_state new_manager load
stable_server-Reach =
    turns (rejoining-Reach server) (succeeds (sees one_failed) (wait_rejoin server) [] [] refl refl)

pub stable_agent-Reach : Reach (stable agent)
unfolding choose_initial_state new_manager load
stable_agent-Reach =
    turns (rejoining-Reach agent) (succeeds (sees one_failed) (wait_rejoin agent) [] [] refl refl)

-- The server evicts the failed machine.
abbrev pub evicting : Manager
evicting = handle (sees one_failed) membership_change (stable server)

pub evicting-Reach : Reach evicting
evicting-Reach = turns stable_server-Reach (takes (sees one_failed) membership_change tt refl)

-- The agent is told to become a server.
abbrev pub promotion : Payload
promotion = object (("target", "a") ∷ ("role", "server") ∷ ("join_ip", "10.0.0.2") ∷ [])

abbrev pub promoting : Manager
promoting = handle (sees one_failed) (user_event EventName.rescale_convert promotion) (stable agent)

pub promoting-Reach : Reach promoting
promoting-Reach =
    turns stable_agent-Reach
      (takes (sees one_failed) (user_event EventName.rescale_convert promotion) tt refl)

-- A machine that boots for the first time.
abbrev pub fresh : Manager
fresh = choose_initial_state StateFile.missing (new_manager (config_of "a") 0 0)

-- Where those machines stand.
pub stable_server-state : (stable server).state ≡ State.stable_server
unfolding choose_initial_state new_manager load on_k3s_operation_succeeded on_rejoin_ready
    stable_state
stable_server-state = refl

pub fresh-state : fresh.state ≡ State.discovering
unfolding choose_initial_state new_manager load
fresh-state = refl

pub promoting-state : promoting.state ≡ State.rescale_promoting
unfolding choose_initial_state new_manager load on_k3s_operation_succeeded on_rejoin_ready
    stable_state handle handle_user_event on_rescale_convert read_rescale_order role_of_string obey
    State-discrete other start_convert
promoting-state = refl

pub evicting-state : evicting.state ≡ State.rescale_coordinating
unfolding choose_initial_state new_manager load on_k3s_operation_succeeded on_rejoin_ready
    stable_state handle on_membership_change maybe_rescale maybe_install_agent maybe_install_server
    maybe_join_cluster maybe_start_joining_path State-discrete is_rescale_coordinator evaluate
    is_etcd_membership_changing lowest_named_alive_member_in is_alive_in is_alive is_failed
    state_tag get_tag to_string tag_is of_string is_node_changing_etcd_membership
    durably_failed_members_names failed_members_names round_evictable deadline_of track_failures
    lookup since_or durably_from sort observe_failures start_eviction start_coordination_round
evicting-state = refl

pub evicting-effects :
    evicting.effects
    ≡ set_state State.rescale_coordinating
      ∷ set_state State.stable_server
      ∷ save_state (record (saved server) { boot_count = pos 2 })
      ∷ set_state State.rejoin_cluster
      ∷ []
unfolding choose_initial_state new_manager load on_k3s_operation_succeeded on_rejoin_ready
    stable_state handle on_membership_change maybe_rescale maybe_install_agent maybe_install_server
    maybe_join_cluster maybe_start_joining_path State-discrete is_rescale_coordinator evaluate
    is_etcd_membership_changing lowest_named_alive_member_in is_alive_in is_alive is_failed
    state_tag get_tag to_string tag_is of_string is_node_changing_etcd_membership
    durably_failed_members_names failed_members_names round_evictable deadline_of track_failures
    lookup since_or durably_from sort observe_failures start_eviction start_coordination_round
evicting-effects = refl
