-- ===== src/Devices/Ata.antt =====
-- storage/ata/ata_pio.c, and the commands of storage/ata/ata_common.c: reads from an ATA drive by
-- polling. The ports of the machine are a parameter, as functions of the state of the drive.
pub mod Words
pub mod Driver
pub mod Loop
pub mod Reads
pub mod Chunks
pub mod Example
mod Tests
use vk.Prelude.{
  ℕ, zero, suc, ◌+◌, ◌-◌, ◌*◌, ◌/◌, ◌%◌, ◌^◌, ◌<◌, ◌≡◌, Bool, true, false, not, ◌&&◌, ◌||◌,
  if◌then◌else◌, ◌==◌, ltb, leb, poke, Outcome, done, no_fuel, ◌>>=◌,
}

-- `inb`, `outb` and `inw`.
pub record Ports (S : Type 0) : Type 0 where
  pub inb : S → ℕ → ℕ × S
  pub outb : S → ℕ → ℕ → S
  pub inw : S → ℕ → ℕ × S

pub record AtaDevice : Type 0 where
  pub base_port : ℕ
  pub control_port : ℕ
  pub flags : ℕ

abbrev pub bytes_per_sector : ℕ
bytes_per_sector = 512

-- ERROR_DISK_... (error/error.h)
abbrev pub error_disk_unreachable : ℕ
error_disk_unreachable = 2

abbrev pub error_disk_out : ℕ
error_disk_out = 3

abbrev pub error_disk_busy : ℕ
error_disk_busy = 4

abbrev pub error_disk_internal : ℕ
error_disk_internal = 5

-- ATA_FLAG_MASTER and ATA_FLAG_LBA48
abbrev pub is_master : AtaDevice → Bool
is_master drive = drive.flags % 2 == 1

abbrev pub has_lba48 : AtaDevice → Bool
has_lba48 drive = drive.flags / 2 % 2 == 1

-- Bit `bit` of a status.
abbrev pub status_bit : ℕ → ℕ → Bool
status_bit status bit = status / 2 ^ bit % 2 == 1

-- Busy, with no data, no error and no fault.
abbrev pub is_waiting : ℕ → Bool
is_waiting status =
    status_bit status 7
    && not (status_bit status 3)
    && not (status_bit status 0)
    && not (status_bit status 5)

-- The sectors that hold `count` bytes from the beginning of one.
abbrev pub sector_count : ℕ → ℕ
sector_count count = count / bytes_per_sector + (if count % bytes_per_sector == 0 then 0 else 1)

-- The two bytes of word `i` of what the drive sends: the first one if it lies behind the offset, the
-- second one if it lies before the end.
abbrev pub store : ℕ → ℕ → ℕ → ℕ → ℕ → (ℕ → ℕ) → ℕ → ℕ
store a offset count i w m q =
    if ltb (i + 1) (count + offset) && (q == a + (i + 1 - offset))
    then w / 256 % 256
    else if leb offset i && (q == a + (i - offset))
    then w % 256
    else m q

module _ {S : Type 0} (ports : Ports S) (drive : AtaDevice) where
  pub ata_io_wait : S → S
  ata_io_wait s =
      let (_, s1) = ports.inb s drive.control_port in
      let (_, s2) = ports.inb s1 drive.control_port in
      let (_, s3) = ports.inb s2 drive.control_port in (ports.inb s3 drive.control_port).1

  -- Writes the value to the port of the device.
  abbrev out : ℕ → ℕ → S → S
  out offset value s = ports.outb s (drive.base_port + offset) value

  pub ata_cmd_28 : ℕ → ℕ → ℕ → S → S
  unfolding ata_io_wait
  ata_cmd_28 sector scount cmd s =
      let s1 =
        ata_io_wait (out 6 ((if is_master drive then 0xE0 else 0xF0) + sector / 2 ^ 24 % 16) s) in
      let s2 = out 2 scount (out 1 0 s1) in
      let s3 =
        out 5 (sector / 2 ^ 16 % 256) (out 4 (sector / 2 ^ 8 % 256) (out 3 (sector % 256) s2)) in
      out 7 cmd s3

  pub ata_cmd_48 : ℕ → ℕ → ℕ → S → S
  unfolding ata_io_wait
  ata_cmd_48 sector scount cmd s =
      let s1 = out 2 0 (ata_io_wait (out 6 (if is_master drive then 0x40 else 0x50) s)) in
      let s2 =
        out 5 (sector / 2 ^ 40 % 256)
          (out 4 (sector / 2 ^ 32 % 256) (out 3 (sector / 2 ^ 24 % 256) s1)) in
      let s3 =
        out 5 (sector / 2 ^ 16 % 256)
          (out 4 (sector / 2 ^ 8 % 256) (out 3 (sector % 256) (out 2 scount s2))) in
      out 7 cmd s3

  -- The loop of `ata_pio_poll_status`: how many of the 0xFFFFF times are left, and the last status.
  pub poll : ℕ → ℕ → S → ℕ × ℕ × S
  poll zero status s = (0, status, s)
  poll (suc left) status s =
      let (status', s') = ports.inb s (drive.base_port + 7) in
      elim (is_waiting status) [ true ↦ poll left status' s' | false ↦ (suc left, status, s) ]

  pub ata_pio_poll_status : S → ℕ × S
  unfolding poll
  ata_pio_poll_status s =
      let (status, s') = ports.inb s (drive.base_port + 7) in
      let (left, status', s'') = poll 0xFFFFF status s' in
      (
        if status_bit status' 5
            then error_disk_unreachable
            else if left == 0
            then error_disk_busy
            else if status_bit status' 0
            then error_disk_unreachable
            else 0,
        s'',
      )

  -- The loop over the words, from byte `i` on: an error number, the number of bytes read, and the
  -- memory.
  pub read_words : ℕ → ℕ → ℕ → ℕ → ℕ → (ℕ → ℕ) → S → Outcome (ℕ × ℕ × (ℕ → ℕ) × S)
  read_words zero a offset count i m s = no_fuel
  read_words (suc rounds) a offset count i m s =
      let (w, s1) = ports.inw s drive.base_port in
      let m' = if ltb (i + 1) offset then m else store a offset count i w m in
      let (status, s2) = ata_pio_poll_status s1 in
      let rest = read_words rounds a offset count (i + 2) m' s1 in
      let polled = read_words rounds a offset count (i + 2) m' s2 in
      if ltb i (count + offset)
      then (if (i + 2) % 1024 == 0
          then (if status == 0 then polled else done (status, i + 2, m', s2))
          else rest)
      else done (0, i, m, s)

  -- The loop up to the end of the sector.
  pub skip_words : ℕ → ℕ → S → Outcome S
  skip_words zero i s = no_fuel
  skip_words (suc rounds) i s =
      let (_, s1) = ports.inw s drive.base_port in
      let rest = skip_words rounds (i + 2) s1 in if i % bytes_per_sector == 0 then done s else rest

  -- Behind the command.
  pub pio_transfer : ℕ → ℕ → ℕ → ℕ → (ℕ → ℕ) → S → Outcome (ℕ × (ℕ → ℕ) × S)
  unfolding read_words skip_words
  pio_transfer rounds a offset count m s =
      let (status, s1) = ata_pio_poll_status s in
      let transfer = read_words rounds a offset count 0 m s1 >>= λ (status', i, m', s2).
      let skipped = skip_words rounds i s2 >>= λ s3. done (0, m', s3) in
      if status' == 0 then skipped else done (status', m', s2) in
      if status == 0 then transfer else done (status, m, s1)

  -- Reads to the address `a`.
  pub ata_pio_read_flexible : ℕ → ℕ → ℕ → ℕ → ℕ → (ℕ → ℕ) → S → Outcome (ℕ × (ℕ → ℕ) × S)
  unfolding pio_transfer ata_cmd_28 ata_cmd_48
  ata_pio_read_flexible rounds sector offset a count m s =
      let scount = sector_count count in
      if count == 0
      then done (0, m, s)
      else if ltb 255 scount
      then done (error_disk_internal, m, s)
      else if ltb (2 ^ 32 - 1) sector
      then (if not (has_lba48 drive)
          then done (error_disk_out, m, s)
          else if leb (2 ^ 48) sector
          then done (error_disk_out, m, s)
          else pio_transfer rounds a offset count m (ata_cmd_48 sector scount 0x29 s))
      else if leb (2 ^ 28) sector
      then done (error_disk_out, m, s)
      else pio_transfer rounds a offset count m (ata_cmd_28 sector scount 0xC4 s)

  -- The call, and up to two more if it fails, of another count.
  pub attempts : ℕ → ℕ → ℕ → ℕ → ℕ → ℕ → (ℕ → ℕ) → S → Outcome (ℕ × (ℕ → ℕ) × S)
  unfolding ata_pio_read_flexible
  attempts rounds sector offset a count again m s =
      ata_pio_read_flexible rounds sector offset a count m s >>= λ (err, m1, s1).
      let second = ata_pio_read_flexible rounds sector offset a again m1 s1 >>= λ (err', m2, s2).
      let third = ata_pio_read_flexible rounds sector offset a again m2 s2 in
      if err' == 0 then done (0, m2, s2) else third in
      if err == 0 then done (0, m1, s1) else second

  -- The loop over chunks of 255 sectors, and the rest.
  pub read_chunks : ℕ → ℕ → ℕ → ℕ → ℕ → ℕ → (ℕ → ℕ) → S → Outcome (ℕ × (ℕ → ℕ) × S)
  unfolding attempts
  read_chunks zero rounds sector offset a count m s = no_fuel
  read_chunks (suc chunks) rounds sector offset a count m s =
      let n = 255 * bytes_per_sector in
      let chunk = attempts rounds sector offset a n n m s >>= λ (err, m', s').
      let rest = read_chunks chunks rounds (sector + 255) 0 (a + n) (count - n) m' s' in
      if err == 0 then rest else done (err, m', s') in
      if ltb n count then chunk else attempts rounds sector offset a count n m s

  -- `ata_read_flexible` of a drive that is not ATAPI, where it polls: before the scheduler has
  -- started, and for 1024 bytes or less.
  pub ata_read_polling : ℕ → ℕ → ℕ → ℕ → ℕ → ℕ → (ℕ → ℕ) → S → Outcome (ℕ × (ℕ → ℕ) × S)
  unfolding read_chunks
  ata_read_polling chunks rounds sector offset a count m s =
      read_chunks chunks rounds (sector + offset / bytes_per_sector) (offset % bytes_per_sector) a
        count m s
