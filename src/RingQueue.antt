-- ===== src/RingQueue.antt =====
-- 0208/RingQueue/ringQueue.hpp: the class RingQueue<T>, and threads that call `push` and `pop` on
-- one queue, interleaved at every access to shared memory.
pub mod Defs
pub mod System
pub mod Invariant
mod Content
mod Entry
mod Moves
pub mod Safety
pub mod Progress
mod Tests
