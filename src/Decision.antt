-- ===== src/Decision.antt =====
-- internal/decision: one cycle's plan of the replica count, with no clients, clocks or writes.
pub mod Defs
pub mod Steps
pub mod Success
pub mod Safety
pub mod Hold
pub mod Modes
