-- ===== src/ProcessPool/First.antt =====
-- The first process pool, 1119/processPool/ProcessPool.cc: the descriptors of its processes, and
-- parent and children side by side.
pub mod Defs
pub mod Queues
mod Wires
pub mod Served
mod Tests
