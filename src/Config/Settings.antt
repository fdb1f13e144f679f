-- ===== src/Config/Settings.antt =====
-- antsd/internal/config/config.go: the parameters of antsd, from the command line, the environment
-- and the defaults, and their validation. The command line is what `flag.Parse` accepts of it, a
-- value for every flag that is given; the parsers of the standard library are given.
use zero_config_ha_cluster.Common.{
  Bool, true, false, not, ◌&&◌, ◌||◌, Option, none, some, String, str_eq, if◌then◌else◌, ℤ, pos,
  le_ℕ,
}
use zero_config_ha_cluster.Node.Role.{is_server, is_agent, role_of_string}
use zero_config_ha_cluster.Config.NodeName.{NameError, validate_node_name}

-- `Config`. A duration is a number of nanoseconds.
pub record Config : Type 0 where
  pub node_name : String
  pub serf_bind_addr : String
  pub serf_bind_port : ℤ
  pub http_port : ℤ
  pub state_file_path : String
  pub k3s_installer : String
  pub k3s_token : String
  pub k3s_fake_installed_role : String
  pub rescale_enabled : Bool
  pub eviction_grace : ℤ
  pub rescale_settle_delay : ℤ
  pub log_level : String

abbrev pub installer_exec : String
installer_exec = "exec"

abbrev pub installer_fake : String
installer_fake = "fake"

-- `fmt.Sscanf` with `%d`, `time.ParseDuration`, and whether `net.ParseIP` gives an address.
pub record Parsers : Type 0 where
  pub parse_int : String → Option ℤ
  pub parse_duration : String → Option ℤ
  pub is_ip : String → Bool

-- `os.Getenv`: the empty text for a variable that is not set.
abbrev pub Environment : Type 0
Environment = String → String

-- `strconv.ParseBool`.
unfoldable pub parse_bool : String → Option Bool
parse_bool t =
    if str_eq t "1"
      || (str_eq t "t"
          || (str_eq t "T" || (str_eq t "TRUE" || (str_eq t "true" || str_eq t "True"))))
    then some true
    else if str_eq t "0"
        || (str_eq t "f"
            || (str_eq t "F" || (str_eq t "FALSE" || (str_eq t "false" || str_eq t "False"))))
    then some false
    else none

-- `envOr`.
unfoldable pub env_or : Environment → String → String → String
env_or env key fallback = if str_eq (env key) "" then fallback else env key

-- `envOrInt`, `envOrBool` and `envOrDuration`, by their parser.
unfoldable pub env_or_parsed : {A : Type 0} → (String → Option A) → Environment → String → A → A
env_or_parsed parse env key fallback =
    if str_eq (env key) ""
    then fallback
    else elim (parse (env key)) [ none ↦ fallback | some x ↦ x ]

-- A flag that is given, or the value that its variable holds for it.
unfoldable pub flag_or : {A : Type 0} → Option A → A → A
flag_or none d = d
flag_or (some x) d = x

-- The flags of the command line that are given.
pub record Flags : Type 0 where
  pub node_name : Option String
  pub serf_bind_addr : Option String
  pub serf_bind_port : Option ℤ
  pub http_port : Option ℤ
  pub state_file : Option String
  pub k3s_installer : Option String
  pub k3s_token : Option String
  pub k3s_fake_installed_role : Option String
  pub rescale_enabled : Option Bool
  pub rescale_eviction_grace : Option ℤ
  pub rescale_settle_delay : Option ℤ
  pub log_level : Option String

-- The errors of `validate`, in the order of its checks.
pub data ConfigError : Type 0 where
  bad_node_name : NameError → ConfigError
  bad_serf_bind_addr bad_serf_bind_port bad_http_port bad_state_file : ConfigError
  bad_installer no_token bad_eviction_grace bad_settle_delay : ConfigError
  role_without_fake bad_fake_role : ConfigError

-- `port <= 0 || port > 65535`.
unfoldable pub out_of_range : ℤ → Bool
out_of_range port = le_ℕ port 0 || not (le_ℕ port 65535)

-- The last block of `validate`.
unfoldable pub validate_fake_role : Config → Option ConfigError
validate_fake_role c =
    if str_eq c.k3s_fake_installed_role ""
    then none
    else if not (str_eq c.k3s_installer installer_fake)
    then some role_without_fake
    else (let role = role_of_string c.k3s_fake_installed_role in
        if not (is_server role) && not (is_agent role) then some bad_fake_role else none)

-- `validate` behind the name; `none` is no error.
unfoldable pub validate_rest : Parsers → Config → Option ConfigError
unfolding out_of_range validate_fake_role
validate_rest p c =
    if not (p.is_ip c.serf_bind_addr)
    then some bad_serf_bind_addr
    else if out_of_range c.serf_bind_port
    then some bad_serf_bind_port
    else if out_of_range c.http_port
    then some bad_http_port
    else if str_eq c.state_file_path ""
    then some bad_state_file
    else if not (str_eq c.k3s_installer installer_exec)
        && not (str_eq c.k3s_installer installer_fake)
    then some bad_installer
    else if str_eq c.k3s_installer installer_exec && str_eq c.k3s_token ""
    then some no_token
    else if le_ℕ c.eviction_grace 0
    then some bad_eviction_grace
    else if le_ℕ c.rescale_settle_delay 0
    then some bad_settle_delay
    else validate_fake_role c

-- `validate`; `none` is no error.
unfoldable pub validate_config : Parsers → Config → Option ConfigError
unfolding validate_rest
validate_config p c = elim (validate_node_name c.node_name) [
  | some e ↦ some (bad_node_name e)
  | none ↦ validate_rest p c
]

-- The `Config` that `Load` fills before it validates; `derived` is what `defaultNodeName` returns.
unfoldable pub gather : Parsers → Environment → Flags → String → Config
unfolding env_or env_or_parsed flag_or
gather p env flags derived = record {
  node_name = flag_or flags.node_name (env_or env "ANTSD_NODE_NAME" derived);
  serf_bind_addr = flag_or flags.serf_bind_addr (env_or env "ANTSD_SERF_BIND_ADDR" "0.0.0.0");
  serf_bind_port =
      flag_or flags.serf_bind_port
        (env_or_parsed p.parse_int env "ANTSD_SERF_BIND_PORT" (pos 7_946));
  http_port = flag_or flags.http_port (env_or_parsed p.parse_int env "ANTSD_HTTP_PORT" (pos 9_000));
  state_file_path =
      flag_or flags.state_file (env_or env "ANTSD_STATE_FILE" "/var/lib/antsd/state.json");
  k3s_installer = flag_or flags.k3s_installer (env_or env "ANTSD_K3S_INSTALLER" installer_exec);
  k3s_token = flag_or flags.k3s_token (env_or env "ANTSD_K3S_TOKEN" "");
  k3s_fake_installed_role =
      flag_or flags.k3s_fake_installed_role (env_or env "ANTSD_K3S_FAKE_INSTALLED_ROLE" "");
  rescale_enabled =
      flag_or flags.rescale_enabled (env_or_parsed parse_bool env "ANTSD_RESCALE_ENABLED" true);
  eviction_grace =
      flag_or flags.rescale_eviction_grace (
        env_or_parsed p.parse_duration env "ANTSD_RESCALE_EVICTION_GRACE" (pos 43_200_000_000_000));
  rescale_settle_delay =
      flag_or flags.rescale_settle_delay
        (env_or_parsed p.parse_duration env "ANTSD_RESCALE_SETTLE_DELAY" (pos 30_000_000_000));
  log_level = flag_or flags.log_level (env_or env "ANTSD_LOG_LEVEL" "debug");
}

-- What `Load` returns.
pub data LoadedConfig : Type 0 where
  ready : Config → LoadedConfig
  no_derived_name : LoadedConfig
  rejected : ConfigError → LoadedConfig

-- What `defaultNodeName` returns: a name, or the empty text and an error.
abbrev pub derived_name : Option String → String
derived_name none = ""
derived_name (some name) = name

abbrev pub derived_name_err : Option String → Bool
derived_name_err none = true
derived_name_err (some _) = false

-- `Load`, from what `defaultNodeName` returns.
unfoldable pub load_config : Parsers → Environment → Flags → Option String → LoadedConfig
unfolding gather validate_config
load_config p env flags derived =
    let c = gather p env flags (derived_name derived) in
    if str_eq c.node_name "" && derived_name_err derived
    then no_derived_name
    else elim (validate_config p c) [ some e ↦ rejected e | none ↦ ready c ]
