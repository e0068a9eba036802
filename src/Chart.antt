-- ===== src/Chart.antt =====
-- crates/pulseon-chart-core: ranges, series, projected paths, hit tests, brush, zoom and selection.
pub mod Range
pub mod Brush
pub mod Zoom
pub mod Series
pub mod YRange
pub mod Path
pub mod Hit
pub mod Selection
pub mod Cache
