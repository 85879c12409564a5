-- ===== src/Filesystem/Fat32/Store.antt =====
-- The allocation table on the drive: `read_fat` and `write_fat`. An entry is four bytes, the lowest
-- first.
pub mod Polled
mod Tests
use vk.Prelude.{ℕ, ◌+◌, ◌*◌, ◌/◌, ◌%◌, ◌^◌, zero, suc, List, [], ◌∷◌, get_or, Option, none, some}
use vk.Filesystem.Drive.{Reply, ok, err, Drive}
use vk.Filesystem.Fat32.Table.{Table}
use vk.Filesystem.Fat32.File.{Volume}

-- The bytes of `n` entries from `c` on.
pub table_bytes : (ℕ → ℕ) → ℕ → ℕ → List ℕ
table_bytes entry c zero = []
table_bytes entry c (suc n) =
    let v = entry c in
    v % 256 ∷ v / 2 ^ 8 % 256 ∷ v / 2 ^ 16 % 256 ∷ v / 2 ^ 24 % 256 ∷ table_bytes entry (c + 1) n

-- The entry that stands in the bytes.
pub entry_at : List ℕ → ℕ → ℕ
entry_at bs c =
    get_or bs (4 * c) 0
    + 2 ^ 8 * get_or bs (4 * c + 1) 0
    + 2 ^ 16 * get_or bs (4 * c + 2) 0
    + 2 ^ 24 * get_or bs (4 * c + 3) 0

abbrev pub table_size : Volume → ℕ
table_size v = v.fat_size * v.bytes_per_sector % 2 ^ 32

abbrev pub table_sector : Volume → ℕ
table_sector v = (v.bpb_offset + v.reserved_sectors) % 2 ^ 32

abbrev pub retry : Reply → Reply → Reply
retry (ok bs) again = ok bs
retry (err e) again = again

module _ {D : Type 0} (drive : Drive D) (v : Volume) where
  -- The loop of `read_fat`; `attempts` are those that are left.
  pub read_attempts : ℕ → D → Reply
  read_attempts zero d = drive.read d (table_sector v) 0 (table_size v)
  read_attempts (suc attempts) d =
      retry (drive.read d (table_sector v) 0 (table_size v)) (read_attempts attempts d)

  abbrev pub table_of : Reply → Option Table
  table_of (ok bs) = some (record { entry = entry_at bs; size = table_size v / 4 })
  table_of (err e) = none

  -- None if the drive fails three times.
  pub read_fat : D → Option Table
  unfolding read_attempts entry_at
  read_fat d = table_of (read_attempts 2 d)

  pub write_fat : D → Table → ℕ × D
  unfolding table_bytes
  write_fat d t = drive.write d (table_sector v) 0 (table_bytes t.entry 0 t.size)
