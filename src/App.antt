-- ===== src/App.antt =====
-- sifter/src/aa_sifter/app.py: one run, from the prompt to its result.
pub mod State
pub mod Exec
pub mod Calls
pub mod Decision
pub mod Route
pub mod Failure
pub mod Run
pub mod Guard
pub mod Log
pub mod Confinement
pub mod Consent
pub mod Spending
pub mod Stopping
pub mod Attempts
pub mod Generate
