-- ===== src/Budget.antt =====
-- The size of the stored history.
pub mod Check
pub mod Growth
