-- ===== src/Filesystem/Fat32/Directory/Tests.antt =====
-- A directory in cluster 3 of the small volume, with one entry: the file A of cluster 4.
use vk.Prelude.{
  ℕ, ◌+◌, ◌-◌, ◌*◌, ◌≡◌, ◌≢◌, refl, false, Bool-cases, inl, inr, [], ◌∷◌, if◌then◌else◌, ◌==◌, ltb,
  copy_in, bytes, length-bytes, get_or-bytes, done, arith,
}
use vk.Filesystem.Drive.Ram.{ram}
use vk.Filesystem.Fat32.Example.{volume, eight}
use vk.Filesystem.Fat32.Table.{get_cluster_chain}
use vk.Filesystem.Fat32.File.{cluster_to_lba}
use vk.Filesystem.Fat32.Entry.{attributes, LongName}
use vk.Filesystem.Fat32.Directory.{Node, entry, read_dirents}

-- The bytes of the entry.
abbrev file_a : ℕ → ℕ
file_a q =
    if q == 0
    then b'A'
    else if ltb q 11
    then b' '
    else if q == 11
    then 32
    else if q == 26
    then 4
    else 0

file_a-attributes : (k : ℕ) → file_a (32 * k + 11) ≢ 0x0F
file_a-attributes k = grind arith

abbrev directory_disk : ℕ → ℕ
directory_disk a = file_a (a - 1536)

abbrev directory_entries : ℕ → ℕ
directory_entries = copy_in (λ q. 0) 0 (bytes directory_disk 1536 512)

directory_entries-attributes : (k : ℕ) → attributes (entry directory_entries k) ≢ 0x0F
directory_entries-attributes k = elim (Bool-cases (ltb (32 * k + 11) 512)) [
  | inl inside ↦ λ (h : attributes (entry directory_entries k) ≡ 0x0F). file_a-attributes k (
      grind (
        arith,
        h,
        inside,
        length-bytes directory_disk 1536 512,
        get_or-bytes directory_disk 1536 512 (32 * k + 11),
      ))
  | inr outside ↦ λ (h : attributes (entry directory_entries k) ≡ 0x0F).
      absurd (grind (arith, h, outside, length-bytes directory_disk 1536 512))
]

abbrev node_a : Node
node_a = record {
  file_length = 9;
  is_dir = false;
  is_hidden = false;
  hard_links = 1;
  creation_time = 0;
  last_access_time = 0;
  last_modification_time = 0;
  cluster = 4;
  dir_cluster = 3;
}

directory-read :
    read_dirents ram volume (λ q. 0) 1 directory_disk eight 3 ≡ done (3 ∷ [], directory_entries)
unfolding read_dirents cluster_to_lba get_cluster_chain
directory-read = refl

-- The long name of another file, as it stays.
abbrev long_b : LongName
long_b = record { memory = λ q. if q == 0 then b'b' else 0; size = 14 }
