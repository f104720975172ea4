-- ===== src/Tickets.antt =====
-- Threads that sell tickets from one shared counter: without a lock (0110/mythread.cc) and under a
-- mutex (0112/mythread1.cc; 0110/mythread1.cc to mythread3.cc and 0112/mythread.cc are other
-- demos).
pub mod Locked
pub mod Countdown
pub mod Unlocked
mod Tests
