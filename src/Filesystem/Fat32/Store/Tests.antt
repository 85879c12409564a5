-- ===== src/Filesystem/Fat32/Store/Tests.antt =====
-- The table of the small volume, read from a simulated drive.
use vk.Devices.Ata.Example.{drive, content as on_drive}
use vk.Filesystem.Drive.Polled.{BlockDevice}
use vk.Filesystem.Fat32.Table.{Table}

abbrev device : BlockDevice
device = record { device_type = 1; device_struct = drive }
