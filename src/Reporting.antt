-- ===== src/Reporting.antt =====
-- crates/pulseon-core/src/engine/reporting.rs: asynchronous metric reporting through a bounded
-- queue and one background writer.
pub mod Diagnostics
pub mod Reporter
pub mod Retry
pub mod System
