-- ===== src/Filesystem/Fat32.antt =====
-- filesystem/fat32.c.
pub mod Table
pub mod File
pub mod Store
pub mod Write
pub mod Entry
pub mod Directory
pub mod Cache
pub mod Operations
pub mod Example
