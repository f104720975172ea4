-- ===== src/Shell.antt =====
-- The shell of 1017/shell/myshell.c: the redirection of a line, its words, and one turn of `main`.
pub mod Redirect
pub mod Scan
pub mod Words
pub mod Turn
pub mod Meaning
pub mod Session
pub mod First
pub mod Agree
mod Tests
