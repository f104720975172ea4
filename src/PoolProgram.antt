-- ===== src/PoolProgram.antt =====
-- The program of 0211/testMain.cc: main makes tasks, the pool of 0211/threadPool.hpp runs them, and
-- all of them write to the log of 0211/Log.hpp.
pub mod Defs
mod Clients
pub mod Texts
pub mod Lines
pub mod Launch
mod Follows
pub mod Results
mod Tests
