-- ===== src/Decisions/Patterns.antt =====
-- The pattern tables of sifter/src/aa_sifter/decisions/classifier.py.
pub mod Critical
pub mod Major
pub mod Significant
