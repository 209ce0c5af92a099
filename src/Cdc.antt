-- ===== src/Cdc.antt =====
-- app/cdc_consumer.py and app/cdc.py: the decoder of pgoutput messages, the events that it publishes,
-- the replication stream and its feedback, and the supervisor that restarts it.
pub mod Bytes
pub mod Reader
pub mod Event
pub mod Tuple
pub mod Decode
pub mod Stream
pub mod Supervisor
pub mod Service
pub mod Traced
pub mod Main
