-- ===== src/Decisions.antt =====
-- sifter/src/aa_sifter/decisions: how significant a change is, and who has to decide on it.
pub mod Level
pub mod Patterns
pub mod Signals
pub mod Classifier
pub mod Approval
pub mod Rules
pub mod Gate
