-- ===== src/Client.antt =====
-- crates/pulseon-core/src/engine/client.rs: the lifecycle of a run in the client.
pub mod Run
pub mod Finalize
pub mod Session
pub mod Create
pub mod Overlap
pub mod Flush
