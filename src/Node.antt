-- ===== src/Node.antt =====
-- antsd/internal/node: the lifecycle states, the roles and their election, the persisted state.
pub mod State
pub mod Role
pub mod Persist
pub mod Saving
pub mod Tag
pub mod Sorting
pub mod Election
