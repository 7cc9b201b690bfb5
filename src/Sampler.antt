-- ===== src/Sampler.antt =====
-- The sampler of the history.
pub mod Slots
pub mod Progress
pub mod Apply
pub mod Once
pub mod Prepare
