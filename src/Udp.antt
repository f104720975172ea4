-- ===== src/Udp.antt =====
-- The chat room over UDP (0215/udp).
pub mod Key
pub mod Server
pub mod Room
pub mod Relay
pub mod Client
pub mod Session
pub mod Copies
pub mod Chat
mod Tests
