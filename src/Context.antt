-- ===== src/Context.antt =====
-- sifter/src/aa_sifter/context: what leaves the process, made to fit and freed of secrets.
pub mod Packet
pub mod Compression
pub mod Redaction
