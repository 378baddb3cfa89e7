-- ===== src/Models.antt =====
-- sifter/src/aa_sifter/models: configuration of the models, messages, and the registry of providers.
pub mod Provider
pub mod Defaults
pub mod Config
