-- ===== src/Comparison.antt =====
-- crates/pulseon-core/src/engine/comparison.rs: the comparison of candidate runs with a reference.
pub mod Evaluate
pub mod Preference
pub mod Reports
