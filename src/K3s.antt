-- ===== src/K3s.antt =====
-- antsd/internal/k3s/installer.go and control_plane.go: the interfaces through which a node drives
-- its local K3s and the cluster. A method takes a world and gives the next one: the disk, the
-- services and the cluster that the real scripts act on, or the memory of the fakes.
pub mod Fake
pub mod Exec
pub mod Operations
pub mod Guarantees
pub mod Waiting
pub mod Staging
pub mod Assets
pub mod Restoring
pub mod Commands
use zero_config_ha_cluster.Common.{Bool, true, false, Option, none, some, String}
use zero_config_ha_cluster.Node.Role.{Role}

-- An error, by what `errors.Is` tells of it: `ErrNotInstalled`, or another one.
pub data Error : Type 0 where
  not_installed failure : Error

-- What `InstalledRole` returns.
pub data RoleResult : Type 0 where
  installed : Role → RoleResult
  error : Error → RoleResult

-- `Installer`. `none` is the nil error.
pub record Installer (W : Type 0) : Type 0 where
  pub install_server_init : W → W × Option Error
  pub install_server_join : String → W → W × Option Error
  pub install_agent : String → W → W × Option Error
  pub convert : Role → String → W → W × Option Error
  pub wait_server_ready : W → W × Option Error
  pub wait_agent_ready : W → W × Option Error
  pub installed_role : W → W × RoleResult

-- `ControlPlane`. `none` as the answer of `node_exists` is an error.
pub record ControlPlane (W : Type 0) : Type 0 where
  pub drain_node : String → W → W × Option Error
  pub delete_node : String → W → W × Option Error
  pub node_exists : String → W → W × Option Bool
