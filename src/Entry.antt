-- ===== src/Entry.antt =====
-- antsd/cmd/antsd/main.go, with `New` and `Run` of antsd/internal/cluster/manager.go up to the run
-- loop: what is built from the configuration, and what must start before the loop.
pub mod Starting
use zero_config_ha_cluster.Common.{
  ℕ, Bool, true, false, not, ◌&&◌, [], String, ◌⊎◌, inl, inr, str_eq, if◌then◌else◌, ℤ, pos, negsuc,
}
use zero_config_ha_cluster.Node.Role.{role_of_string}
use zero_config_ha_cluster.Node.Persist.{StateFile}
use zero_config_ha_cluster.Config.Settings.{
  Config, LoadedConfig, ready, no_derived_name, rejected, installer_fake,
}
use zero_config_ha_cluster.Config.Printing.{Level, get_log_level}
use zero_config_ha_cluster.K3s.Commands.{ExecInstaller, new_exec_installer}
use zero_config_ha_cluster.K3s.Fake.{FakeWorld}
use zero_config_ha_cluster.Cluster.Manager
use zero_config_ha_cluster.Cluster.Running.{Daemon, begin}

-- The installer and the control plane of `New`: the simulated ones, or those that run the scripts.
pub data Backend : Type 0 where
  fake_k3s : FakeWorld → Backend
  exec_k3s : ExecInstaller → Backend

-- `New`, the choice of the installer.
unfoldable pub new_backend : Config → Backend
unfolding new_exec_installer
new_backend c =
    if str_eq c.k3s_installer installer_fake
    then fake_k3s (record {
      installed_as = role_of_string c.k3s_fake_installed_role;
      known = [];
      done = false;
    })
    else exec_k3s
        (record { token = c.k3s_token; node_name = c.node_name; bin_path = "/usr/local/bin/k3s" })

-- A duration that is not negative.
abbrev pub to_ℕ : ℤ → ℕ
to_ℕ (pos n) = n
to_ℕ (negsuc n) = 0

-- What the workflows read of the configuration.
abbrev pub workflow_config : Config → Manager.Config
workflow_config c = record { node_name = c.node_name; rescale_enabled = c.rescale_enabled }

-- What the start depends on: whether Serf starts, the template of the dashboard is parsed and the
-- port of the admin server is free, and the state file.
pub record Host : Type 0 where
  pub serf_starts : Bool
  pub template_parses : Bool
  pub listens : Bool
  pub state_file : StateFile

-- The error that `Run` returns before its loop.
pub data StartError : Type 0 where
  serf_error template_error listen_error : StartError

-- The Serf of the node has started before the error, and the machine is a member of the network.
unfoldable pub serf_runs : StartError → Bool
serf_runs serf_error = false
serf_runs template_error = true
serf_runs listen_error = true

-- `Run` up to its loop.
unfoldable pub run : Config → Host → StartError ⊎ Daemon
run c h =
    if not h.serf_starts
    then inl serf_error
    else if not h.template_parses
    then inl template_error
    else if not h.listens
    then inl listen_error
    else inr (
        begin (workflow_config c) (to_ℕ c.eviction_grace) (to_ℕ c.rescale_settle_delay)
          h.state_file)

-- What becomes of the program: it exits with a code, after the Serf of the node has started or not, or
-- it runs its loop, with its level of the log and its way to K3s, until a signal ends it.
pub data Program : Type 0 where
  exits : ℕ → Bool → Program
  loops : Level → Backend → Daemon → Program

-- `main` behind `config.Load`.
unfoldable pub main_with : Config → Host → Program
unfolding get_log_level new_backend run serf_runs
main_with c h = elim (run c h) [
  | inl e ↦ exits 1 (serf_runs e)
  | inr d ↦ loops (get_log_level c) (new_backend c) d
]

-- `main`.
unfoldable pub main : LoadedConfig → Host → Program
unfolding main_with
main (ready c) h = main_with c h
main no_derived_name h = exits 1 false
main (rejected _) h = exits 1 false
