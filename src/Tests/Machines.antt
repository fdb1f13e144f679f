-- ===== src/Tests/Machines.antt =====
-- Machines in the middle of the workflows of antsd/internal/cluster.
use zero_config_ha_cluster.Common.{true, false, [], ◌∷◌, none}
use zero_config_ha_cluster.Node.State.{State}
use zero_config_ha_cluster.Node.Role.{agent}
use zero_config_ha_cluster.Cluster.Manager.{Manager, install_agent, check_not_installed}
use zero_config_ha_cluster.Cluster.Joining.{forget_payload, on_forgotten}
use zero_config_ha_cluster.Tests.Data.{one_joins, sees, manager_in}

abbrev pub waiting_agent : Manager
waiting_agent = record (manager_in "a" State.bootstrap_waiting) {
  bootstrap = record {
    timer = none;
    role = agent;
    rank = 1;
    total_alive_members = 2;
    members = "a" ∷ "b" ∷ [];
  };
}

-- A server that knows since when the other one fails.
abbrev pub failing_server : Manager
failing_server = record (manager_in "a" State.stable_server) {
  rescale = record ((manager_in "a" State.stable_server).rescale) { failed_since = ("b", 1) ∷ [] };
}

-- A machine that joins and still checks itself.
abbrev pub checking_machine : Manager
checking_machine = record (manager_in "b" State.joining_cleanup) {
  joining = record { timer = none; settled = true; cleaned = false; forget_attempts = 0 };
  operations = check_not_installed ∷ [];
}

abbrev pub still_installing : Manager
still_installing = record (on_forgotten (sees one_joins) (forget_payload "b") checking_machine) {
  operations = install_agent "10.0.0.9" ∷ [];
}
