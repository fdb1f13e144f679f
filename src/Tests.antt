-- ===== src/Tests.antt =====
-- Concrete machines, memberships and runs of antsd/internal/cluster, at which the theorems are used.
pub mod Data
pub mod Lifecycle
pub mod Machines
pub mod Founding
pub mod Rescaling
pub mod Joining
pub mod Election
pub mod Operations
pub mod System
pub mod Settings
pub mod Saving
pub mod Events
pub mod Running
pub mod Serving
pub mod Telling
