-- ===== src/Decisions/Approval.antt =====
-- sifter/src/aa_sifter/decisions/approval.py: requests to the human, their decisions, and the
-- providers that answer. `parse_decision_input` stands in the child `Input`.
pub mod Types
pub mod Input
pub mod Auto
pub use Types.*
