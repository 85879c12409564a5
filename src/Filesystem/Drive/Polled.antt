-- ===== src/Filesystem/Drive/Polled.antt =====
-- `block_read_flexible` of storage/block_devices.c, for an ATA drive that is read by polling.
use vk.Prelude.{
  true, ℕ, zero, suc, ◌+◌, ◌*◌, ◌/◌, ◌^◌, ◌≤◌, ◌<◌, ◌≡◌, refl, ap, subst, ◌∙◌, ap₂, List, ◌∷◌,
  bytes, if◌then◌else◌, ◌==◌, Outcome, done, fatal, wild, no_fuel, arith,
}
use vk.Devices.Ata.{Ports, AtaDevice, error_disk_internal, ata_read_polling}
use vk.Devices.Ata.Words.{Phases, IsAta}
use vk.Devices.Ata.Chunks.{Delivers, ata_read_polling-Delivers}
use vk.Filesystem.Drive.{Reply, ok, err, Drive}

bytes-same :
    (b b' : ℕ → ℕ) (i j n : ℕ)
    → ((q : ℕ) → q < n → b (i + q) ≡ b' (j + q))
    → bytes b i n ≡ bytes b' j n
unfolding bytes
bytes-same b b' i j zero same = refl
bytes-same b b' i j (suc n) same =
    ap₂ ◌∷◌ (ap b (omega arith) ∙ same 0 (omega arith) ∙ ap b' (omega arith)) (
      bytes-same b b' (i + 1) (j + 1) n
        (λ q lt. ap b (omega arith) ∙ same (suc q) (omega (arith, lt)) ∙ ap b' (omega arith)))

-- What the caller gets, in a buffer at 0: the bytes, or the error number.
abbrev pub reply : {S : Type 0} → ℕ → Outcome (ℕ × (ℕ → ℕ) × S) → Reply
reply count (done (e, m, s)) = if e == 0 then ok (bytes m 0 count) else err e
reply count (fatal h) = err error_disk_internal
reply count wild = err error_disk_internal
reply count no_fuel = err error_disk_internal

-- ATA_DEVICE
abbrev pub ata_device : ℕ
ata_device = 1

-- `block_device_t`, of which only these two are read.
pub record BlockDevice : Type 0 where
  pub device_type : ℕ
  pub device_struct : AtaDevice

-- `block_read_flexible`, from the drive in the state `s`; one chunk more than there are times 255
-- sectors.
pub block_read_flexible : {S : Type 0} → Ports S → BlockDevice → S → ℕ → ℕ → ℕ → Reply
block_read_flexible ports drive s sector offset count =
    let read = reply count (
      ata_read_polling ports drive.device_struct (count / 130560 + 1) 65537 sector offset 0 count
        (λ q. 0) s) in
    if drive.device_type == ata_device then read else err error_disk_internal

-- The block device; `write` stands for `block_write_flexible`.
abbrev pub polled : {S : Type 0} → Ports S → BlockDevice → (S → ℕ → ℕ → List ℕ → ℕ × S) → Drive S
polled ports device write = record { read = block_read_flexible ports device; write = write }

module _ {S : Type 0} (ports : Ports S) (device : BlockDevice) (content : ℕ → ℕ) (p : Phases S)
    (ata : IsAta ports device.device_struct content p) where
  Delivers-reply :
      (base count : ℕ) (r : Outcome (ℕ × (ℕ → ℕ) × S))
      → Delivers ports device.device_struct content p ata base 0 count (λ q. 0) r
      → reply count r ≡ ok (bytes content base count)
  Delivers-reply base count r (m, s, e, idle, new, others) =
      ap (reply count) e ∙ ap ok (bytes-same m content 0 base count (λ q lt. new q lt))

  -- From a sector on, an idle drive delivers the bytes that it holds.
  pub block_read_flexible-Delivers :
      (s : S) (sector count : ℕ)
      → device.device_type ≡ ata_device
      → p.IsIdle s
      → 0 < count
      → 512 * sector + count ≤ 2 ^ 37
      → block_read_flexible ports device s sector 0 count ≡ ok (bytes content (512 * sector) count)
  unfolding block_read_flexible
  block_read_flexible-Delivers s sector count kind idle some inside =
      let is_ata : (device.device_type == ata_device) ≡ true = ground (arith, kind) in
      rw is_ata (
        Delivers-reply (512 * sector) count
          (ata_read_polling ports device.device_struct (count / 130560 + 1) 65537 sector 0 0 count
            (λ q. 0) s)
          (subst
            (λ x.
              Delivers ports device.device_struct content p ata x 0 count (λ q. 0)
                (ata_read_polling ports device.device_struct (count / 130560 + 1) 65537 sector 0 0
                  count (λ q. 0) s))
            (omega arith)
            (ata_read_polling-Delivers ports device.device_struct content p ata (count / 130560 + 1)
              65537 sector 0 0 count (λ q. 0) s idle some refl (omega (arith, inside)) (omega arith)
              (omega arith))))
