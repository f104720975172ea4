-- ===== src/ThreadPool.antt =====
-- 0211/threadPool.hpp (0215/tcp/threadPool/threadPool.hpp is the same file, and
-- 0208/ThreadPool/threadPool.hpp the version before it was made a singleton): the task queue of the
-- class ThreadPool<T>, the threads that push tasks and the worker threads that run them.
pub mod Defs
pub mod System
pub mod Invariant
pub mod Entry
mod Moves
pub mod Places
pub mod Carries
pub mod Effort
pub mod Workforce
pub mod Rest
pub mod Draining
pub mod Safety
mod Tests
