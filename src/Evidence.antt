-- ===== src/Evidence.antt =====
-- crates/pulseon-core/src/engine/query.rs: the evidence that the query store derives from stored
-- rows and from the lifecycle status of a run. `Derive` has the definitions.
pub mod Derive
pub mod Laws
