-- ===== src/Filesystem/Fat32/Example.antt =====
-- A small volume to run the functions on. Its table has eight entries: clusters 2 and 5 are a chain,
-- cluster 3 is one, and 4, 6 and 7 are free. A cluster is one sector.
use vk.Prelude.{ℕ, ◌%◌, refl, [], ◌∷◌, if◌then◌else◌, ◌==◌, ◌||◌, arith}
use vk.Filesystem.Fat32.Table.{Table}
use vk.Filesystem.Fat32.Table.Chain.{IsChain}
use vk.Filesystem.Fat32.Table.Allocate.{IsTable}
use vk.Filesystem.Fat32.File.{Volume}

abbrev pub volume : Volume
volume = record {
  bpb_offset = 0;
  reserved_sectors = 1;
  fats_number = 1;
  fat_size = 1;
  bytes_per_sector = 512;
  sectors_per_cluster = 1;
}

abbrev pub disk : ℕ → ℕ
disk a = a % 251

abbrev pub eight : Table
eight = record {
  entry = λ c. if c == 2 then 5 else if (c == 4) || (c == 6) || (c == 7) then 0 else 0x0FFFFFFF;
  size = 8;
}

pub eight-IsTable : IsTable eight
eight-IsTable = record { small = omega arith; reserved = omega arith }

pub eight-IsChain : IsChain eight (2 ∷ 5 ∷ [])
eight-IsChain = (omega arith, refl, omega arith, omega arith, (omega arith, omega arith))
