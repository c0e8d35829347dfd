-- ===== src/Tests.antt =====
-- Runs of the models at concrete inputs.
mod Fixtures
mod Status
mod Selection
mod Checks
mod Runs
mod Reconciles
mod Cluster
mod Markers
mod Histories
mod Schema
mod Asking
mod Operators
