-- ===== src/Ranking.antt =====
-- crates/pulseon-core/src/engine/ranking.rs: competition ranking of the runs of a request.
pub mod Rank
pub mod Better
pub mod Order
pub mod Competition
pub mod Best
