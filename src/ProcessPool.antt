-- ===== src/ProcessPool.antt =====
-- The process pool of 1119/processPool.
pub mod Task
pub mod Child
pub mod Parent
pub mod Dispatch
pub mod Menu
pub mod Fds
pub mod First
mod Tests
