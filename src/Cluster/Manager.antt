-- ===== src/Cluster/Manager.antt =====
-- antsd/internal/cluster/manager.go: the state of the orchestrator, what it asks of the outside
-- (effects), what the outside answers (`Env`), and the steps that every workflow shares.
-- A method of `*Manager` is a function to the new record. Logging is left out.
use zero_config_ha_cluster.Common.{
  ℕ, Bool, true, false, List, [], ◌∷◌, Option, none, some, String, str_eq, if◌then◌else◌,
}
use zero_config_ha_cluster.Node.State.{State, starting}
use zero_config_ha_cluster.Node.Role.{Role, unset, stable_state}
use zero_config_ha_cluster.Node.Persist.{PersistedState}
use zero_config_ha_cluster.Cluster.View.{View}
use zero_config_ha_cluster.Cluster.Failures.{FailureClock}

-- `commandType`.
pub data CommandType : Type 0 where
  request_bootstrap confirm_bootstrap cancel_bootstrap : CommandType
  bootstrap_wait_expired join_wait_expired forget_retry forget_probed rescale_check : CommandType
  k3s_operation_succeeded k3s_operation_failed : CommandType

-- A pending `time.AfterFunc`, which submits a command after a delay.
pub record Timer : Type 0 where
  pub delay : ℕ
  pub command : CommandType

-- A payload: absent, not a JSON object of texts, or the fields of one.
pub data Payload : Type 0 where
  empty malformed : Payload
  object : List (String × String) → Payload

-- The names of the user events of the four workflows.
pub data EventName : Type 0 where
  bootstrap_requested bootstrap_start rescale_convert forget_me forgotten : EventName
  unknown_event : String → EventName

-- `rescaleOrder`, and its zero value.
pub record RescaleOrder : Type 0 where
  pub target : String
  pub role : Role
  pub join_ip : String

abbrev pub no_order : RescaleOrder
no_order = record { target = ""; role = unset; join_ip = "" }

-- The closures that are given to `startK3sOperation`, each with the values it captures.
pub data Operation : Type 0 where
  install_init : Operation
  install_server install_agent : String → Operation
  check_not_installed : Operation
  wait_rejoin : Role → Operation
  evict_nodes : List String → Operation
  prepare_conversion erase_node : String → Operation
  convert : RescaleOrder → Operation

-- What the manager does to the outside: calls, each of which may fail there.
pub data Effect : Type 0 where
  set_state : State → Effect
  send_user_event : EventName → Payload → Effect
  save_state : PersistedState → Effect
  remove_failed_node : String → Effect
  probe_node : String → Effect

-- What the outside answers, which may depend on all that was done to it, newest first: the Serf
-- membership, the time, the own address, whether a user event could be sent, and whether a member
-- could be erased.
pub record Env : Type 0 where
  pub snapshot : List Effect → View
  pub now : List Effect → ℕ
  pub local_ip : String
  pub sends : List Effect → Bool
  pub removes : List Effect → String → Bool

-- What the workflows read of `config.Config`.
pub record Config : Type 0 where
  pub node_name : String
  pub rescale_enabled : Bool

-- `bootstrapProgress`.
pub record BootstrapProgress : Type 0 where
  pub timer : Option Timer
  pub role : Role
  pub rank : ℕ
  pub total_alive_members : ℕ
  pub members : List String

abbrev pub no_bootstrap : BootstrapProgress
no_bootstrap = record {
  timer = none;
  role = unset;
  rank = 0;
  total_alive_members = 0;
  members = [];
}

-- `joiningProgress`.
pub record JoiningProgress : Type 0 where
  pub timer : Option Timer
  pub settled : Bool
  pub cleaned : Bool
  pub forget_attempts : ℕ

-- `rescaleProgress`.
pub record RescaleProgress : Type 0 where
  pub failed_since : FailureClock
  pub imbalance_since : ℕ
  pub retry_not_before : ℕ
  pub timer : Option Timer
  pub order : RescaleOrder
  pub evicting : List String
  pub cleaning : String

-- `Manager`. `operations` holds the goroutines of `startK3sOperation` whose result the run loop has
-- not taken yet; `panicked` tells that a nil pointer was read.
pub record Manager : Type 0 where
  pub config : Config
  pub state : State
  pub state_view : State
  pub bootstrap_wait_delay : ℕ
  pub join_wait_delay : ℕ
  pub forget_retry_interval : ℕ
  pub eviction_grace : ℕ
  pub rescale_settle_delay : ℕ
  pub bootstrap : BootstrapProgress
  pub joining : JoiningProgress
  pub rescale : RescaleProgress
  pub persisted_state : Option PersistedState
  pub operations : List Operation
  pub effects : List Effect
  pub panicked : Bool

-- `newManager`, with the delays of the workflows and of the configuration, in nanoseconds.
unfoldable pub new_manager : Config → ℕ → ℕ → Manager
new_manager config grace settle = record {
  config = config;
  state = starting;
  state_view = starting;
  bootstrap_wait_delay = 10_000_000_000;
  join_wait_delay = 10_000_000_000;
  forget_retry_interval = 15_000_000_000;
  eviction_grace = grace;
  rescale_settle_delay = settle;
  bootstrap = no_bootstrap;
  joining = record { timer = none; settled = false; cleaned = false; forget_attempts = 0 };
  rescale = record {
    failed_since = [];
    imbalance_since = 0;
    retry_not_before = 0;
    timer = none;
    order = no_order;
    evicting = [];
    cleaning = "";
  };
  persisted_state = none;
  operations = [];
  effects = [];
  panicked = false;
}

-- `observeCluster`.
unfoldable pub observe_cluster : Env → Manager → View
observe_cluster env m = env.snapshot m.effects

-- `transition`. The effect is the call of `SetState`, which may fail; as that is only logged, nothing
-- here depends on it (Invariant/Published has what the other nodes read then).
unfoldable pub transition : State → Manager → Manager
transition to m = record m { state = to; state_view = to; effects = set_state to ∷ m.effects }

-- `becomeStable`: a failure to write the file is only logged.
unfoldable pub become_stable : PersistedState → Manager → Manager
unfolding transition
become_stable p m =
    transition (stable_state p.role)
      (record m { persisted_state = some p; effects = save_state p ∷ m.effects })

-- `startK3sOperation`.
unfoldable pub start_k3s_operation : Operation → Manager → Manager
start_k3s_operation op m = record m { operations = op ∷ m.operations }

-- `SendUserEvent`: the new state, and whether there was no error.
unfoldable pub broadcast : Env → EventName → Payload → Manager → Manager × Bool
broadcast env name payload m =
    (record m { effects = send_user_event name payload ∷ m.effects }, env.sends m.effects)

-- The read of a nil pointer.
unfoldable pub panic : Manager → Manager
panic m = record m { panicked = true }

-- The text under a key of a JSON object; a missing key leaves the empty text.
unfoldable pub get_field : String → List (String × String) → String
get_field k [] = ""
get_field k ((j, v) ∷ m) = if str_eq j k then v else get_field k m
