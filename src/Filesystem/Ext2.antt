-- ===== src/Filesystem/Ext2.antt =====
-- filesystem/ext2.c.
pub mod Bitmap
pub mod Alloc
pub mod Dirents
