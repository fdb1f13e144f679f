-- ===== src/Cluster.antt =====
-- antsd/internal/cluster: the orchestrator of a node and its workflows.
pub mod View
pub mod Failures
pub mod Manager
pub mod Rejoin
pub mod Joining
pub mod Bootstrap
pub mod Rescale
pub mod Forgetting
pub mod Rounds
pub mod Loop
pub mod Keeping
pub mod Invariant
pub mod Safety
pub mod Running
pub mod System
