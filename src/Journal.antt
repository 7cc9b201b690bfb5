-- ===== src/Journal.antt =====
-- The write-ahead journal of scale decisions.
pub mod Types
pub mod Store
pub mod Validate
pub mod Scale
pub mod Recover
pub mod StoreLaws
pub mod StatusLaws
pub mod Clearing
pub mod Charging
pub mod WriteAhead
pub mod Safety
pub mod Refusal
pub mod Recovery
