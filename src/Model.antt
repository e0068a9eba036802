-- ===== src/Model.antt =====
-- crates/pulseon-model: identities, runs, metric queries, aligned queries and comparison evidence.
pub mod Run
pub mod Metric
pub mod Alignment
pub mod Comparison
