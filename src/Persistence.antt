-- ===== src/Persistence.antt =====
-- app/persistence.py: every function of the module, over the tables of `Store`.
pub mod Detect
pub mod Ingest
pub mod Fault
pub mod CommsLoss
pub mod Reads
