-- ===== src/Tests/Settings.antt =====
-- Parameters and names of antsd/internal/config on concrete inputs.
use zero_config_ha_cluster.Common.{
  ℕ, ◌≤◌, ◌≡◌, ◌⊎◌, ◌↔◌, true, false, ◌&&◌, List, [], ◌∷◌, Option, none, some, String, len, str_lt,
  codes, pos, any, In, arith,
}
use zero_config_ha_cluster.Config.NodeName.{
  validate_node_name, Interface, Sysfs, is_usable, name_of_mac, default_node_name,
}
use zero_config_ha_cluster.Config.Pattern.{Matches, node_name_pattern, validate_node_name-none_iff}
use zero_config_ha_cluster.Config.Derived.{default_node_name-lowest}
use zero_config_ha_cluster.Config.Settings.{
  Config, Parsers, Environment, Flags, ConfigError, validate_config, gather, load_config, ready,
  no_derived_name, rejected,
}
use zero_config_ha_cluster.Config.Precedence.{AreChosen}
use zero_config_ha_cluster.Config.Loading.{IsValid, validate_config-none_iff, load_config-outcome}

abbrev pub no_flags : Flags
no_flags = record {
  node_name = none;
  serf_bind_addr = none;
  serf_bind_port = some (pos 7_000);
  http_port = none;
  state_file = none;
  k3s_installer = none;
  k3s_token = some "secret";
  k3s_fake_installed_role = none;
  rescale_enabled = none;
  rescale_eviction_grace = none;
  rescale_settle_delay = none;
  log_level = none;
}

abbrev pub parsers : Parsers
parsers = record {
  parse_int = λ _. some (pos 1);
  parse_duration = λ _. some (pos 1);
  is_ip = λ _. true;
}

abbrev pub no_environment : Environment
no_environment _ = ""

abbrev card : String → List ℕ → Interface
card name mac = record { name = name; loopback = false; hardware_addr = mac }

abbrev two_cards : List Interface
two_cards = card "eth1" (1 ∷ 2 ∷ 3 ∷ []) ∷ card "eth0" (2 ∷ 171 ∷ 205 ∷ 239 ∷ []) ∷ []

abbrev no_sysfs : Sysfs
no_sysfs = record { present = false; has_device = λ _. false }

abbrev pub derived : Option String
derived = some "ants-abcdef"

validate_node_name-none_iff_example :
    (validate_node_name "ants-abcdef" ≡ none)
    ↔ ((len "ants-abcdef" ≤ 63) × Matches node_name_pattern (codes "ants-abcdef"))
validate_node_name-none_iff_example = validate_node_name-none_iff "ants-abcdef"

default_node_name-lowest_example :
    ((default_node_name no_sysfs two_cards ≡ none) × (any (is_usable no_sysfs) two_cards ≡ false))
    ⊎ ((i : Interface) × In i two_cards
        × (is_usable no_sysfs i ≡ true)
        × (any (λ j. is_usable no_sysfs j && str_lt j.name i.name) two_cards ≡ false)
        × (default_node_name no_sysfs two_cards ≡ some (name_of_mac i.hardware_addr))
        × (validate_node_name (name_of_mac i.hardware_addr) ≡ none))
default_node_name-lowest_example = default_node_name-lowest no_sysfs two_cards (
  (omega arith, (omega arith, (omega arith, tt))),
  ((omega arith, (omega arith, (omega arith, (omega arith, tt)))), tt),
)

validate_config-none_iff_example :
    (validate_config parsers (gather parsers no_environment no_flags "ants-abcdef") ≡ none)
    ↔ IsValid parsers (gather parsers no_environment no_flags "ants-abcdef")
validate_config-none_iff_example =
    validate_config-none_iff parsers (gather parsers no_environment no_flags "ants-abcdef")

load_config-outcome_example :
    (c : Config) × AreChosen parsers no_environment no_flags "ants-abcdef" c
    × (((load_config parsers no_environment no_flags derived ≡ ready c) × IsValid parsers c)
        ⊎ (((load_config parsers no_environment no_flags derived ≡ no_derived_name)
              × (derived ≡ none)
              × (c.node_name ≡ ""))
            ⊎ ((e : ConfigError) × (load_config parsers no_environment no_flags derived
                  ≡ rejected e)
                × (¬ IsValid parsers c))))
load_config-outcome_example = load_config-outcome parsers no_environment no_flags derived
