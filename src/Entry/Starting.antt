-- ===== src/Entry/Starting.antt =====
-- When antsd/cmd/antsd/main.go reaches its run loop, and with what.
use zero_config_ha_cluster.Common.{◌≡◌, ◌⊎◌, Bool, false, ◌&&◌, str_eq}
use zero_config_ha_cluster.Node.Role.{unset, server, agent}
use zero_config_ha_cluster.Config.Settings.{Config}
use zero_config_ha_cluster.Entry.{Backend, fake_k3s, exec_k3s, Host}

-- Everything that `Run` starts before its loop has started.
abbrev pub all_start : Host → Bool
all_start h = h.serf_starts && (h.template_parses && h.listens)

-- The backend fits the configuration: the scripts have a token, and the simulation pretends nothing
-- but a role that there is.
abbrev pub IsUsable : Backend → Type 0
IsUsable (fake_k3s w) =
    (w.installed_as ≡ unset) ⊎ ((w.installed_as ≡ server) ⊎ (w.installed_as ≡ agent))
IsUsable (exec_k3s i) = str_eq i.token "" ≡ false
