-- ===== src/Config.antt =====
-- sifter/src/aa_sifter/config: the profiles of a user, and the configuration of a run that they give.
pub mod Schema
pub mod Defaults
pub mod Profiles
pub mod Toml
pub mod Resolve
pub mod Validation
pub mod Store
