-- ===== src/Workers.antt =====
-- The workers: internal/workers.
pub mod ControlState
pub mod Handlers
