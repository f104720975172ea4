-- ===== src/Pipe.antt =====
-- Processes that talk through a pipe (1119/pipe) or a fifo (1126/fifo).
pub mod Mypipe
pub mod Fifo
pub mod Events
pub mod Pieces
pub mod Relay
mod Tests
