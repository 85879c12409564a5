-- ===== src/Filesystem/Fat32/File/Polled.antt =====
-- Reads of a file on an ATA drive that is read by polling.
use vk.Filesystem.Fat32.Table.{Table}
