-- ===== src/Devices/Ata/Tests.antt =====
-- Runs of the driver, against a simulated drive.
use vk.Prelude.{ℕ, ◌+◌, ◌*◌, ◌^◌, ◌≤◌, ◌<◌, ◌≡◌, ◌⊎◌, refl, done, arith}
use vk.Devices.Ata.{ata_read_polling, ata_pio_read_flexible, error_disk_out}
use vk.Devices.Ata.Reads.{ata_pio_read_flexible-delivers}
use vk.Devices.Ata.Chunks.{Delivers, ata_read_polling-Delivers}
use vk.Devices.Ata.Example.{Sim, content, sim_ports, drive, phases, sim-IsAta, sim}

-- A sector between 2 ^ 28 and 2 ^ 32 is refused, also by a drive with 48-bit addresses.
refused :
    ata_pio_read_flexible sim_ports
      (record drive { flags = 3 })
      300
      (2 ^ 28)
      0
      0x1000
      512
      (λ q. 0)
      sim
    ≡ done (error_disk_out, (λ q. 0), sim)
unfolding ata_pio_read_flexible
refused = refl

ata_pio_read_flexible-delivers_example :
    (m' : ℕ → ℕ) × (s' : Sim) × (ata_pio_read_flexible sim_ports drive 420 9 100 0x1000 200
        (λ q. 0)
        sim
      ≡ done (0, m', s'))
    × phases.IsIdle s'
    × ((q : ℕ) → q < 200 → m' (0x1000 + q) ≡ content (512 * 9 + 100 + q))
    × ((q : ℕ) → (q < 0x1000) ⊎ (0x1000 + 200 ≤ q) → m' q ≡ 0)
ata_pio_read_flexible-delivers_example =
    ata_pio_read_flexible-delivers sim_ports drive content phases sim-IsAta 420 9 100 0x1000 200
      (λ q. 0) sim (refl, refl) (omega arith) (omega arith) (omega arith) (omega arith)
      (omega arith)

-- 600 sectors, in three chunks.
ata_read_polling-Delivers_example :
    Delivers sim_ports drive content phases sim-IsAta
      (512 * 3 + 1024)
      0x1000
      307200
      (λ q. 0)
      (ata_read_polling sim_ports drive 3 65537 3 1024 0x1000 307200 (λ q. 0) sim)
ata_read_polling-Delivers_example =
    ata_read_polling-Delivers sim_ports drive content phases sim-IsAta 3 65537 3 1024 0x1000 307200
      (λ q. 0) sim (refl, refl) (omega arith) refl (omega arith) (omega arith) (omega arith)
