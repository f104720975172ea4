-- ===== src/Wakeup.antt =====
-- Threads that are let go by signals on a condition variable (0113/demo/mycond.cc).
pub mod Defs
pub mod Bound
pub mod Lost
mod Tests
