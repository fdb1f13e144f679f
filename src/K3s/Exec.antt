-- ===== src/K3s/Exec.antt =====
-- antsd/internal/k3s/exec.go: the installer that runs the scripts of K3s. The scripts, the units of
-- systemd, the staging of the files and the probes are given.
use zero_config_ha_cluster.Common.{Bool, true, false, Option, none, some, String, if◌then◌else◌}
use zero_config_ha_cluster.Node.Role.{Role, server, agent, is_server, is_agent, role_eq}
use zero_config_ha_cluster.K3s.{Error, not_installed, failure, RoleResult, installed, error}

-- What the outside does: `os.Stat` on the unit of a role (`none` is an error other than
-- `os.ErrNotExist`), the uninstall script of a role and whether it failed, whether the context is
-- cancelled, and the install script as an additional server or as an agent.
pub record Scripts (W : Type 0) : Type 0 where
  pub unit_exists : Role → W → W × Option Bool
  pub uninstall : Role → W → W × Bool
  pub canceled : W → Bool
  pub install_server_join : String → W → W × Option Error
  pub install_agent : String → W → W × Option Error

-- The switch of `ExecInstaller.InstalledRole`.
unfoldable pub role_of_units : Bool → Bool → RoleResult
role_of_units true true = error failure
role_of_units true false = installed server
role_of_units false true = installed agent
role_of_units false false = error not_installed

-- `ExecInstaller.InstalledRole`.
unfoldable pub exec_installed_role : {W : Type 0} → Scripts W → W → W × RoleResult
exec_installed_role s w =
    let (w1, a) = s.unit_exists server w in
    elim a [
      | none ↦ (w1, error failure)
      | some has_server ↦
          let (w2, b) = s.unit_exists agent w1 in
          (
            w2,
            elim b [ none ↦ error failure | some has_agent ↦ role_of_units has_server has_agent ],
          )
    ]

-- `ExecInstaller.runUninstallScript`: the failure of the script is only logged.
unfoldable pub run_uninstall_script : {W : Type 0} → Scripts W → Role → W → W × Option Error
run_uninstall_script s role w =
    let (w1, failed) = s.uninstall (if is_agent role then agent else server) w in
    (w1, if failed then (if s.canceled w1 then some failure else none) else none)

-- The part of `ExecInstaller.Convert` behind the uninstallation.
unfoldable pub install_converted : {W : Type 0} → Scripts W → Role → String → W → W × Option Error
install_converted s to ip w =
    let (w1, r) = exec_installed_role s w in
    elim r [
      | installed _ ↦ (w1, some failure)
      | error e ↦ elim e [
        | failure ↦ (w1, some failure)
        | not_installed ↦
            if is_server to then s.install_server_join ip w1 else s.install_agent ip w1
      ]
    ]

-- `ExecInstaller.Convert`.
unfoldable pub exec_convert : {W : Type 0} → Scripts W → Role → String → W → W × Option Error
exec_convert s to ip w =
    let (w1, r) = exec_installed_role s w in
    elim r [
      | error e ↦ (w1, some e)
      | installed from ↦
          if role_eq from to
          then (w1, none)
          else (let (w2, e) = run_uninstall_script s from w1 in
              elim e [ some x ↦ (w2, some x) | none ↦ install_converted s to ip w2 ])
    ]
