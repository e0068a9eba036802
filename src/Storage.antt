-- ===== src/Storage.antt =====
-- crates/pulseon-storage: configuration, stored rows, and the text that goes into SQL and paths.
pub mod Search
pub mod Backend
pub mod Config
pub mod Rows
pub mod Encode
pub mod Sql
