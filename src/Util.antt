-- ===== src/Util.antt =====
-- util/: data structures and the functions of a small C library.
pub mod Queue
pub mod Number
