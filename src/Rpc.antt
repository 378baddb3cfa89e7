-- ===== src/Rpc.antt =====
-- sifter/src/aa_sifter/rpc and contracts.py: the service that other modules call.
pub mod Envelope
pub mod Contracts
pub mod Service
