-- ===== src/Filesystem/Fat32/File.antt =====
-- Reading and writing the clusters of a file. The numbers of `fd->offset` and `count` are of 64
-- bits.
pub mod Read
pub mod Polled
mod Tests
use vk.Prelude.{
  ℕ, ◌+◌, ◌-◌, ◌*◌, ◌^◌, ◌%◌, zero, suc, List, [], ◌∷◌, ◌++◌, if◌then◌else◌, ◌==◌, ltb, leb,
  Outcome, done, wild, ◌>>=◌, length,
}
use vk.Filesystem.Drive.{Reply, ok, err, Drive}
use vk.Filesystem.Fat32.Table.{Table, get_cluster_chain}

-- What the functions use of `bpb_t`, and `bpb_offset`.
pub record Volume : Type 0 where
  pub bpb_offset : ℕ
  pub reserved_sectors : ℕ
  pub fats_number : ℕ
  pub fat_size : ℕ
  pub bytes_per_sector : ℕ
  pub sectors_per_cluster : ℕ

abbrev pub cluster_size : Volume → ℕ
cluster_size v = v.sectors_per_cluster * 512

unfoldable pub cluster_to_lba : Volume → ℕ → ℕ
cluster_to_lba v cluster =
    let sector =
      (v.bpb_offset
        + v.reserved_sectors
        + v.fats_number * v.fat_size
        + cluster * v.sectors_per_cluster)
      % 2 ^ 32 in
    (sector + (2 ^ 64 - 2 * v.sectors_per_cluster)) % 2 ^ 64

-- Bytes in front of those that the rest of a read returns.
abbrev pub prepend : List ℕ → Reply → Reply
prepend bs (ok rest) = ok (bs ++ rest)
prepend bs (err e) = err e

-- The rest of a read goes on only behind one without an error.
abbrev pub read_then : Reply → Outcome Reply → Outcome Reply
read_then (err e) rest = done (err e)
read_then (ok bs) rest = rest >>= λ r. done (prepend bs r)

-- `while(offset >= size)`: the clusters from the one on that holds the offset, and the offset in it.
pub skip : ℕ → List ℕ → ℕ → Outcome (List ℕ × ℕ)
skip size [] offset = if leb size offset then wild else done ([], offset)
skip size (c ∷ cs) offset =
    let rest = skip size cs (offset - size) in
    if leb size offset then rest else done (c ∷ cs, offset)

module _ {D : Type 0} (drive : Drive D) (v : Volume) where
  -- The loop of `read_file`; the first argument is `cluss2`.
  pub read_loop : ℕ → D → List ℕ → ℕ → ℕ → Outcome Reply
  unfolding cluster_to_lba
  read_loop zero d clusters offset count = done (ok [])
  read_loop (suc cluss) d [] offset count = if count == 0 then done (ok []) else wild
  read_loop (suc cluss) d (c ∷ cs) offset count =
      let size = cluster_size v in
      let whole =
        read_then (drive.read d (cluster_to_lba v c) (offset % 2 ^ 32) size)
          (read_loop cluss d cs 0 ((count - size) % 2 ^ 32)) in
      let part =
        read_then (drive.read d (cluster_to_lba v c) (offset % 2 ^ 32) count) (done (ok [])) in
      if count == 0 then done (ok []) else if leb size count then whole else part

  unfoldable pub read_file : ℕ → D → Table → ℕ → ℕ → ℕ → Outcome Reply
  unfolding read_loop skip
  read_file rounds d t cluster offset count =
      if ltb ((count + offset) % 2 ^ 64) (cluster_size v)
      then done (drive.read d (cluster_to_lba v cluster) (offset % 2 ^ 32) count)
      else (get_cluster_chain rounds t cluster >>= λ clusters.
          skip (cluster_size v) clusters offset >>= λ (rest, offset').
          read_loop (length clusters) d rest offset' count)
