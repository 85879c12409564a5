-- ===== src/Filesystem/Fat32/File/Tests.antt =====
-- A read from the small volume, on a simulated drive.
use vk.Prelude.{ℕ, List}
use vk.Devices.Ata.Example.{Sim, drive, content as on_drive}
use vk.Filesystem.Drive.Polled.{BlockDevice}
use vk.Filesystem.Fat32.File.Read.{content}

abbrev device : BlockDevice
device = record { device_type = 1; device_struct = drive }

abbrev no_write : Sim → ℕ → ℕ → List ℕ → ℕ × Sim
no_write s sector offset src = (1, s)
