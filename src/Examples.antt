-- ===== src/Examples.antt =====
-- Concrete inputs of the models, and the theorems applied to them.
pub mod Samples
pub mod Leases
pub mod Races
pub mod States
pub mod Pipelines
pub mod Handlers
pub mod Workers
pub mod Repositories
pub mod Sweeps
pub mod Runs
pub mod Texts
pub mod Fleets
