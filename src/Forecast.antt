-- ===== src/Forecast.antt =====
-- From a forecast to replicas.
pub mod Types
pub mod Demand
pub mod Trajectory
pub mod Windows
pub mod Exact
pub mod Timed
pub mod History
pub mod Pruning
pub mod Requirements
