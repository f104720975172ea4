-- ===== src/Singleton.antt =====
-- The double-checked creation of a single object: ThreadPool<T>::getThreadPool of
-- 0211/threadPool.hpp and Singleton::GetInstance of xjh_multi_thread/test.cc, called by any number
-- of threads. Accesses to the pointer are taken as atomic and in program order.
pub mod Defs
pub mod Invariant
pub mod Safety
mod Tests
