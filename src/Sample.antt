-- ===== src/Sample.antt =====
-- Concrete data on which the theorems are applied.
pub mod Whole
pub mod Math
pub mod Order
pub mod Casts
