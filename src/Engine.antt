-- ===== src/Engine.antt =====
-- crates/pulseon-core/src/engine: the errors of the engine and the reads that its queries make.
pub mod Error
pub mod Reads
pub mod Order
pub mod Distinct
