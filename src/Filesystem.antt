-- ===== src/Filesystem.antt =====
-- filesystem/: the drivers of file systems, and the files of all of them.
pub mod Drive
pub mod Fat32
pub mod Ext2
pub mod Files
