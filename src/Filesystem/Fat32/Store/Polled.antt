-- ===== src/Filesystem/Fat32/Store/Polled.antt =====
-- The table that is read from an ATA drive by polling.
use vk.Filesystem.Fat32.Table.{Table}
