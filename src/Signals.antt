-- ===== src/Signals.antt =====
-- Signals that are blocked and stay pending (0105/mysignal.cc and 0108/mysignal1.cc).
pub mod Defs
pub mod Pending
mod Tests
