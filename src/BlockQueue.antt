-- ===== src/BlockQueue.antt =====
-- 0114/BlockQueue.hpp: the class BlockQueue<T>, a bounded queue behind one mutex and two condition
-- variables, and threads that call `push` and `pop` on it.
pub mod Defs
pub mod System
pub mod Invariant
mod Entry
mod Moves
pub mod Safety
pub mod Progress
pub mod Tasks
pub mod Answers
mod Tests
