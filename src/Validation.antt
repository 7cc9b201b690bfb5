-- ===== src/Validation.antt =====
-- Validation of specifications.
pub mod Types
pub mod Checks
pub mod Demand
pub mod Kubernetes
pub mod Basics
pub mod Models
pub mod Spec
pub mod Sound
pub mod Window
