-- ===== src/Cluster/System/Completion.antt =====
-- The bootstrap of antsd/internal/cluster/bootstrap.go can always come to its end: the turns that
-- build the whole cluster, machine by machine.
use zero_config_ha_cluster.Cluster.Manager.{Manager}
