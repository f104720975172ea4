-- ===== src/MyFile.antt =====
-- A file with a buffer in user space (1017/myfile.c).
pub mod Defs
pub mod Stream
mod Tests
