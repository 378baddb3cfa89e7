-- ===== src/Examples.antt =====
-- The theorems at concrete inputs, and runs of the definitions.
pub mod Sample
pub mod Runs
pub mod Routes
pub mod Decisions
pub mod Work
pub mod Settings
pub mod Background
pub mod Calls
pub mod Schemas
