-- ===== src/Tests/Operations.antt =====
-- Operations of antsd/internal/cluster over the simulated and over a small scripted installer of
-- antsd/internal/k3s.
use zero_config_ha_cluster.Common.{
  ◌≡◌, refl, Bool, true, false, [], ◌∷◌, none, some, arith, if◌then◌else◌,
}
use zero_config_ha_cluster.Node.Role.{server, is_server, role_eq}
use zero_config_ha_cluster.Cluster.Manager.{install_init, evict_nodes}
use zero_config_ha_cluster.K3s.{failure, ControlPlane}
use zero_config_ha_cluster.K3s.Operations.{run_operation}
use zero_config_ha_cluster.K3s.Exec.{Scripts}
use zero_config_ha_cluster.K3s.Fake.{
  FakeWorld, fake_installed_role, fake_installer, fake_control_plane,
}
use zero_config_ha_cluster.K3s.Guarantees.{first_installation_refuses, round_needs_quorum}

-- A simulated server that knows three machines.
abbrev world : FakeWorld
world = record { installed_as = server; known = "a" ∷ "b" ∷ "c" ∷ []; done = false }

-- A control plane that has lost its quorum.
abbrev minority : ControlPlane FakeWorld
minority = record {
  drain_node = λ name w. (w, some failure);
  delete_node = λ name w. (w, some failure);
  node_exists = λ name w. (w, none);
}

-- The units on a disk: of a server and of an agent.
abbrev disk : Scripts (Bool × Bool)
disk = record {
  unit_exists = λ r w. (w, some (if is_server r then w.0 else w.1));
  uninstall = λ r w. ((false, false), false);
  canceled = λ w. false;
  install_server_join = λ ip w. ((true, w.1), none);
  install_agent = λ ip w. ((w.0, true), none);
}

first_installation_refuses_example :
    run_operation fake_installer fake_control_plane "a" install_init world ≡ (world, some failure)
unfolding fake_installed_role role_eq
first_installation_refuses_example =
    first_installation_refuses fake_installer fake_control_plane "a" install_init world refl
      (λ e. absurd (ground (arith, e)))

round_needs_quorum_example :
    run_operation fake_installer minority "a" (evict_nodes ("b" ∷ [])) world ≡ (world, some failure)
round_needs_quorum_example =
    round_needs_quorum fake_installer minority "a" (evict_nodes ("b" ∷ [])) world refl refl
