-- ===== src/Cluster/Running/Consistency.antt =====
-- What the rest of the program may rely on in every moment of a run of
-- antsd/internal/cluster/manager.go, before and after the context is canceled.
use zero_config_ha_cluster.Cluster.Manager.{Manager}
