-- ===== src/Config.antt =====
-- antsd/internal/config: the parameters of antsd, and the name that a machine derives for itself.
pub mod NodeName
pub mod Pattern
pub mod Derived
pub mod Settings
pub mod Printing
pub mod Precedence
pub mod Loading
