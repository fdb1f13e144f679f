-- ===== src/K3s/Fake.antt =====
-- antsd/internal/k3s/fake.go: the installer and the control plane that only simulate.
use zero_config_ha_cluster.Common.{
  Bool, List, [], ◌∷◌, Option, none, some, String, str_eq, if◌then◌else◌, contains,
}
use zero_config_ha_cluster.Node.Role.{Role, server, agent, unset, role_eq}
use zero_config_ha_cluster.K3s.{
  Error, not_installed, failure, RoleResult, installed, error, Installer, ControlPlane,
}

-- `FakeInstaller` and `FakeControlPlane`; `done` tells whether the context of the calls is cancelled.
pub record FakeWorld : Type 0 where
  pub installed_as : Role
  pub known : List String
  pub done : Bool

-- `simulate`, of either type.
unfoldable pub simulate : FakeWorld → Option Error
simulate w = if w.done then some failure else none

-- `simulateInstall`, with `SetInstalledRole`.
unfoldable pub simulate_install : Role → FakeWorld → FakeWorld × Option Error
simulate_install role w = elim (simulate w) [
  | some e ↦ (w, some e)
  | none ↦ (record w { installed_as = role }, none)
]

-- `FakeInstaller.InstalledRole`.
unfoldable pub fake_installed_role : FakeWorld → FakeWorld × RoleResult
fake_installed_role w =
    (w, if role_eq w.installed_as unset then error not_installed else installed w.installed_as)

-- `FakeInstaller.Convert`.
unfoldable pub fake_convert : Role → String → FakeWorld → FakeWorld × Option Error
fake_convert to ip w = elim (fake_installed_role w).1 [
  | error e ↦ (w, some e)
  | installed _ ↦ simulate_install to w
]

-- The methods of `FakeInstaller`.
abbrev pub fake_installer : Installer FakeWorld
fake_installer = record {
  install_server_init = simulate_install server;
  install_server_join = λ ip. simulate_install server;
  install_agent = λ ip. simulate_install agent;
  convert = fake_convert;
  wait_server_ready = λ w. (w, simulate w);
  wait_agent_ready = λ w. (w, simulate w);
  installed_role = fake_installed_role;
}

-- `delete(f.known, name)`.
unfoldable pub remove : String → List String → List String
remove name [] = []
remove name (x ∷ xs) = let rest = remove name xs in if str_eq x name then rest else x ∷ rest

-- `FakeControlPlane.DeleteNode`.
unfoldable pub fake_delete_node : String → FakeWorld → FakeWorld × Option Error
fake_delete_node name w = elim (simulate w) [
  | some e ↦ (w, some e)
  | none ↦ (record w { known = remove name w.known }, none)
]

-- The methods of `FakeControlPlane`.
abbrev pub fake_control_plane : ControlPlane FakeWorld
fake_control_plane = record {
  drain_node = λ name w. (w, simulate w);
  delete_node = fake_delete_node;
  node_exists = λ name w. (w, some (contains w.known name));
}
