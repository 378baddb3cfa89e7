-- ===== src/Contracts.antt =====
-- contracts/python/aa_contracts/v1.py: the objects that the modules of the system exchange.
pub mod Json
pub mod Fields
pub mod Kinds
pub mod V1
