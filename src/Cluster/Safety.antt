-- ===== src/Cluster/Safety.antt =====
-- What the workflows of antsd/internal/cluster promise, from the invariant and from the handlers.
pub mod Lifecycle
pub mod Terminal
pub mod Founding
pub mod Rounds
pub mod Orders
pub mod Forgetting
pub mod Races
pub mod Conversion
