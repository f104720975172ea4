-- ===== src/Polling.antt =====
-- A father who asks again and again whether his child has ended (0919/myproc.cc).
pub mod Defs
pub mod Waits
mod Tests
