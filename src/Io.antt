-- ===== src/Io.antt =====
-- io/: streams of bytes and terminals.
pub mod Stream
pub mod Tty
