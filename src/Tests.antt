-- ===== src/Tests.antt =====
-- Runs of the model at concrete inputs.
mod Reporting
mod Ranking
mod Evidence
mod Client
mod Viewer
mod Model
mod Chart
mod Storage
