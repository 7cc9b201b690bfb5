-- ===== src/Retention.antt =====
-- The stored histories of the models.
pub mod Window
pub mod Expiry
