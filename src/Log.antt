-- ===== src/Log.antt =====
-- The function logMessage: 0211/Log.hpp, which writes to a file, 0215/tcp/threadPool/Log.hpp, which
-- opens the file and writes to the standard output, and 0215/udp/Log.hpp.
pub mod Defs
pub mod Bytes
pub mod Reading
pub mod All
mod Tests
