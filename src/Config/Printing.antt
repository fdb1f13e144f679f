-- ===== src/Config/Printing.antt =====
-- antsd/internal/config/config.go: the configuration as it is printed, without its token, and the
-- level of the log.
use zero_config_ha_cluster.Common.{
  ◌≡◌, ◌≢◌, ◌||◌, String, ◌+++◌, str_eq, str_eq-false, if◌then◌else◌, ℤ, arith, lower_is,
}
use zero_config_ha_cluster.Config.Settings.{Config}

-- What `String` prints of a number and of a duration.
pub record Printers : Type 0 where
  pub show_int : ℤ → String
  pub show_duration : ℤ → String

-- `Config.String`.
unfoldable pub config_to_string : Printers → Config → String
config_to_string p c =
    let token_info = if str_eq c.k3s_token "" then "UNSET" else "set" in
    "Config{NodeName: "
    +++ (c.node_name
        +++ (", SerfBindAddr: "
            +++ (c.serf_bind_addr
                +++ (", SerfBindPort: "
                    +++ (p.show_int c.serf_bind_port
                        +++ (", HTTPPort: "
                            +++ (p.show_int c.http_port
                                +++ (", StateFilePath: "
                                    +++ (c.state_file_path
                                        +++ (", K3sInstaller: "
                                            +++ (c.k3s_installer
                                                +++ (", K3sToken: "
                                                    +++ (token_info
                                                        +++ (", RescaleEnabled: "
                                                            +++ ((if c.rescale_enabled
                                                            then "true"
                                                            else "false")
                                                            +++ (", EvictionGrace: "
                                                            +++ (p.show_duration c.eviction_grace
                                                            +++ (", RescaleSettleDelay: "
                                                            +++ (p.show_duration
                                                            c.rescale_settle_delay
                                                            +++ (", LogLevel: "
                                                            +++ (c.log_level
                                                            +++ "}")))))))))))))))))))))

-- `slog.Level`.
pub data Level : Type 0 where
  debug info warn error : Level

-- `Config.GetLogLevel`.
unfoldable pub get_log_level : Config → Level
get_log_level c =
    if lower_is c.log_level "debug"
    then debug
    else if lower_is c.log_level "info"
    then info
    else if lower_is c.log_level "warn" || lower_is c.log_level "warning"
    then warn
    else if lower_is c.log_level "error"
    then error
    else info

-- The printed configuration does not depend on the token, but on whether there is one.
pub config_to_string_hides_token :
    (p : Printers) (c : Config) (t u : String)
    → t ≢ ""
    → u ≢ ""
    → config_to_string p (record c { k3s_token = t })
      ≡ config_to_string p (record c { k3s_token = u })
unfolding config_to_string
config_to_string_hides_token p c t u h k = ground (arith, str_eq-false t "" h, str_eq-false u "" k)
