-- ===== src/Quality.antt =====
-- Verification of forecasts.
pub mod Types
pub mod Pending
pub mod Monitor
pub mod Bounded
pub mod Invariant
pub mod Matching
pub mod Scoring
pub mod Disjoint
pub mod Alarm
