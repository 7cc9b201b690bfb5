-- ===== src/Retry.antt =====
-- The circuit of a model whose fits fail.
pub mod Policy
pub mod Delay
