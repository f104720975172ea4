-- ===== src/Printers.antt =====
-- Two threads that print numbers in turn (the third `main` of xjh_multi_thread/test1.cc).
pub mod Defs
pub mod Invariant
pub mod Waiting
pub mod Moves
pub mod Turns
mod Tests
