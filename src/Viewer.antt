-- ===== src/Viewer.antt =====
-- crates/pulseon-viewer: the native read worker with its event channel, and the viewer's state.
pub mod Requests
pub mod Pending
pub mod Events
pub mod Serve
pub mod Budget
pub mod Core
pub mod Selection
pub mod Apply
pub mod Stale
pub mod Curves
pub mod View
