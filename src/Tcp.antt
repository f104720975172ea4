-- ===== src/Tcp.antt =====
-- 0215/tcp: the echo server of tcp_server.hpp, from its sockets to the service of one connection,
-- and the client of tcp_client.cc. What system calls return is given by a script.
pub mod Service
pub mod Server
pub mod Client
pub mod Pooled
pub mod Follows
pub mod Connections
pub mod Fork
mod Tests
mod PoolTests
