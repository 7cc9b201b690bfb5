-- ===== src/Cache.antt =====
-- The cache of predictions.
pub mod Defs
pub mod Reports
pub mod Lifetime
pub mod Expiry
pub mod Requeue
pub mod Make
