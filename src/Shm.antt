-- ===== src/Shm.antt =====
-- Server and client that share a memory segment (1201/shm), and with a fifo beside it
-- (1201/shm_pipe).
pub mod Segment
pub mod Protocol
pub mod Handshake
pub mod Setup
pub mod Wakes
pub mod Runs
pub mod Prints
mod Tests
