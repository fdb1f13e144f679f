-- ===== src/Tests/System.antt =====
-- Two machines that build a cluster (antsd/internal/cluster), turn by turn.
use zero_config_ha_cluster.Common.{false, List, [], ◌∷◌}
use zero_config_ha_cluster.Node.Persist.{missing}
use zero_config_ha_cluster.Cluster.Manager.{Manager, Config, new_manager}
use zero_config_ha_cluster.Cluster.Rejoin.{choose_initial_state}
use zero_config_ha_cluster.Cluster.System.Order.{boot_all}
use zero_config_ha_cluster.Cluster.System.Observation.{env_of}
use zero_config_ha_cluster.Cluster.System.Machine.{begun}

abbrev two_configs : List Config
two_configs =
    record { node_name = "a"; rescale_enabled = false }
    ∷ record { node_name = "b"; rescale_enabled = false }
    ∷ []

abbrev booted : List Manager
booted = boot_all 1 1 two_configs

abbrev a_of : Manager
a_of =
    choose_initial_state missing
      (new_manager (record { node_name = "a"; rescale_enabled = false }) 1 1)

abbrev b_of : Manager
b_of =
    choose_initial_state missing
      (new_manager (record { node_name = "b"; rescale_enabled = false }) 1 1)

-- The first machine installs the first server.
abbrev founding : List Manager
founding = begun (env_of booted) a_of ∷ b_of ∷ []
