-- ===== src/Devices.antt =====
-- devices/ and storage/: the keyboard and the drives.
pub mod Keyboard
pub mod Ata
