-- ===== src/Config/Precedence.antt =====
-- Where antsd/internal/config/config.go takes each parameter from: a flag that is given, or else a
-- variable that is set and can be read, or else the default.
use zero_config_ha_cluster.Common.{
  ◌≡◌, ◌≢◌, refl, ◌⊎◌, inl, inr, true, false, Option, none, some, String, str_eq, pos, arith,
  eq_iff, Bool-cases, Option-cases,
}
use zero_config_ha_cluster.Config.Settings.{
  Config, Parsers, Environment, Flags, parse_bool, env_or, env_or_parsed, flag_or, gather,
}

-- The value of one parameter, by its flag, its variable and its default.
abbrev pub IsChosen : {A : Type 0} → Option A → (String → Option A) → String → A → A → Type 0
IsChosen flag parse variable default x =
    (flag ≡ some x)
    ⊎ (((flag ≡ none) × (variable ≢ "") × (parse variable ≡ some x))
        ⊎ ((flag ≡ none) × ((variable ≡ "") ⊎ (parse variable ≡ none)) × (x ≡ default)))

-- The same for all parameters. A text needs no parser; `derived` is the name that is derived.
pub record AreChosen (p : Parsers) (env : Environment) (flags : Flags) (derived : String)
    (c : Config) : Type 0 where
  pub node_name : IsChosen flags.node_name some (env "ANTSD_NODE_NAME") derived c.node_name
  pub serf_bind_addr :
      IsChosen flags.serf_bind_addr some (env "ANTSD_SERF_BIND_ADDR") "0.0.0.0" c.serf_bind_addr
  pub serf_bind_port :
      IsChosen flags.serf_bind_port p.parse_int
        (env "ANTSD_SERF_BIND_PORT")
        (pos 7_946)
        c.serf_bind_port
  pub http_port :
      IsChosen flags.http_port p.parse_int (env "ANTSD_HTTP_PORT") (pos 9_000) c.http_port
  pub state_file :
      IsChosen flags.state_file some
        (env "ANTSD_STATE_FILE")
        "/var/lib/antsd/state.json"
        c.state_file_path
  pub k3s_installer :
      IsChosen flags.k3s_installer some (env "ANTSD_K3S_INSTALLER") "exec" c.k3s_installer
  pub k3s_token : IsChosen flags.k3s_token some (env "ANTSD_K3S_TOKEN") "" c.k3s_token
  pub k3s_fake_installed_role :
      IsChosen flags.k3s_fake_installed_role some
        (env "ANTSD_K3S_FAKE_INSTALLED_ROLE")
        ""
        c.k3s_fake_installed_role
  pub rescale_enabled :
      IsChosen flags.rescale_enabled parse_bool (env "ANTSD_RESCALE_ENABLED") true c.rescale_enabled
  pub eviction_grace :
      IsChosen flags.rescale_eviction_grace p.parse_duration
        (env "ANTSD_RESCALE_EVICTION_GRACE")
        (pos 43_200_000_000_000)
        c.eviction_grace
  pub rescale_settle_delay :
      IsChosen flags.rescale_settle_delay p.parse_duration
        (env "ANTSD_RESCALE_SETTLE_DELAY")
        (pos 30_000_000_000)
        c.rescale_settle_delay
  pub log_level : IsChosen flags.log_level some (env "ANTSD_LOG_LEVEL") "debug" c.log_level

is_set : (s : String) → str_eq s "" ≡ false → s ≢ ""
is_set s h e = absurd (ground (arith, (eq_iff s "").1 e))

text-IsChosen :
    (flag : Option String) (env : Environment) (key default : String)
    → IsChosen flag some (env key) default (flag_or flag (env_or env key default))
unfolding flag_or env_or
text-IsChosen (some x) env key default = inl refl
text-IsChosen none env key default = elim (Bool-cases (str_eq (env key) "")) [
  | inl e ↦ inr (inr (refl, inl ((eq_iff (env key) "").0 e), ground arith))
  | inr n ↦ inr (inl (refl, is_set (env key) n, ground arith))
]

parsed-IsChosen :
    {A : Type 0} (flag : Option A) (parse : String → Option A) (env : Environment) (key : String)
    (default : A)
    → IsChosen flag parse (env key) default (flag_or flag (env_or_parsed parse env key default))
unfolding flag_or env_or_parsed
parsed-IsChosen (some x) parse env key default = inl refl
parsed-IsChosen none parse env key default = elim (Bool-cases (str_eq (env key) "")) [
  | inl e ↦ inr (inr (refl, inl ((eq_iff (env key) "").0 e), ground arith))
  | inr n ↦ elim (Option-cases (parse (env key))) [
    | inl o ↦ inr (inr (refl, inr o, ground arith))
    | inr (x, o) ↦ inr (inl (refl, is_set (env key) n, ground arith))
  ]
]

pub gather-AreChosen :
    (p : Parsers) (env : Environment) (flags : Flags) (derived : String)
    → AreChosen p env flags derived (gather p env flags derived)
unfolding gather
gather-AreChosen p env flags derived = record {
  node_name = text-IsChosen flags.node_name env "ANTSD_NODE_NAME" derived;
  serf_bind_addr = text-IsChosen flags.serf_bind_addr env "ANTSD_SERF_BIND_ADDR" "0.0.0.0";
  serf_bind_port =
      parsed-IsChosen flags.serf_bind_port p.parse_int env "ANTSD_SERF_BIND_PORT" (pos 7_946);
  http_port = parsed-IsChosen flags.http_port p.parse_int env "ANTSD_HTTP_PORT" (pos 9_000);
  state_file = text-IsChosen flags.state_file env "ANTSD_STATE_FILE" "/var/lib/antsd/state.json";
  k3s_installer = text-IsChosen flags.k3s_installer env "ANTSD_K3S_INSTALLER" "exec";
  k3s_token = text-IsChosen flags.k3s_token env "ANTSD_K3S_TOKEN" "";
  k3s_fake_installed_role =
      text-IsChosen flags.k3s_fake_installed_role env "ANTSD_K3S_FAKE_INSTALLED_ROLE" "";
  rescale_enabled =
      parsed-IsChosen flags.rescale_enabled parse_bool env "ANTSD_RESCALE_ENABLED" true;
  eviction_grace =
      parsed-IsChosen flags.rescale_eviction_grace p.parse_duration env
        "ANTSD_RESCALE_EVICTION_GRACE" (pos 43_200_000_000_000);
  rescale_settle_delay =
      parsed-IsChosen flags.rescale_settle_delay p.parse_duration env "ANTSD_RESCALE_SETTLE_DELAY"
        (pos 30_000_000_000);
  log_level = text-IsChosen flags.log_level env "ANTSD_LOG_LEVEL" "debug";
}
