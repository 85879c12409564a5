-- ===== src/Filesystem/Fat32/Directory.antt =====
-- The functions that look for an entry in the clusters of a directory, change it, and write the
-- clusters back. `buffer` is a pointer to entries of 32 bytes, so that after each cluster it moves
-- on by 32 times the size of a cluster. `garbage` is what a fresh block of memory holds.
pub mod Find
pub mod Long
mod Tests
use vk.Prelude.{
  ℕ, ◌+◌, ◌-◌, ◌*◌, ◌/◌, ◌%◌, ◌^◌, zero, suc, Bool, true, false, not, List, [], ◌∷◌, ◌++◌,
  if◌then◌else◌, ◌==◌, ltb, leb, ◌&&◌, ◌||◌, bytes, copy_in, put_u16, poke, length, Option, none,
  some, Outcome, done, wild, ◌>>=◌,
}
use vk.Time.Readable.{Readable, convert_to_readable_time}
use vk.Filesystem.Drive.{Drive, received}
use vk.Filesystem.Fat32.Table.{Table, get_cluster_chain}
use vk.Filesystem.Fat32.File.{Volume, cluster_size, cluster_to_lba}
use vk.Filesystem.Fat32.Entry.{
  attributes, file_cluster, fat_attr_lfn, fat_attr_directory, fat_attr_hidden, LongName, no_name,
  lfn_add, text, strcmpnc, short_name,
}

-- What `fsnode_t` and its `specific` hold of a file.
pub record Node : Type 0 where
  pub file_length : ℕ
  pub is_dir : Bool
  pub is_hidden : Bool
  pub hard_links : ℕ
  pub creation_time : ℕ
  pub last_access_time : ℕ
  pub last_modification_time : ℕ
  pub cluster : ℕ
  pub dir_cluster : ℕ

abbrev pub entry : (ℕ → ℕ) → ℕ → ℕ → ℕ
entry dirents i q = dirents (32 * i + q)

-- The name, when an entry is passed by that is not the one that is looked for.
abbrev pub pass_by : (ℕ → ℕ) → LongName → Outcome LongName
pass_by e name =
    if e 0 == 0xE5
    then done name
    else if attributes e == fat_attr_lfn
    then lfn_add e name
    else done (record name { size = 0 })

-- The entry is in use and is not part of a long name.
abbrev pub is_file : (ℕ → ℕ) → Bool
is_file e = not (e 0 == 0xE5) && not (attributes e == fat_attr_lfn)

-- The loop of `update_dirent` and `delete_dirent`: the first entry behind a long name that has the
-- cluster, and that name.
pub find_cluster : ℕ → ℕ → LongName → (ℕ → ℕ) → ℕ → Outcome (Option (ℕ × LongName))
find_cluster zero i name dirents cluster = done none
find_cluster (suc rounds) i name dirents cluster =
    let e = entry dirents i in
    let rest = pass_by e name >>= λ name'. find_cluster rounds (i + 1) name' dirents cluster in
    if e 0 == 0
    then done none
    else if is_file e && not (name.size == 0) && (file_cluster e == cluster)
    then done (some (i, name))
    else rest

-- What `fat32_open` makes of the name behind an entry with another name: it stays.
abbrev pub pass_open : (ℕ → ℕ) → LongName → Outcome LongName
pass_open e name = if is_file e || (e 0 == 0xE5) then done name else lfn_add e name

-- Whether the entry has the name that `fat32_open` looks for.
abbrev pub has_name : (ℕ → ℕ) → LongName → List ℕ → Outcome Bool
has_name e long name =
    if not (is_file e)
    then done false
    else if not (long.size == 0)
    then done (strcmpnc (text long.size long.memory 0) name)
    else short_name e >>= λ short. done (strcmpnc short name)

-- The loop of `fat32_open`.
pub find_name : ℕ → ℕ → LongName → (ℕ → ℕ) → List ℕ → Outcome (Option ℕ)
find_name zero i long dirents name = done none
find_name (suc rounds) i long dirents name =
    let e = entry dirents i in
    let rest = pass_open e long >>= λ long'. find_name rounds (i + 1) long' dirents name in
    let here = has_name e long name >>= λ same. if same then done (some i) else rest in
    if e 0 == 0 then done none else here

-- Time and date as an entry holds them.
abbrev pub fat_time : Readable → ℕ
fat_time r = r.hour * 2 ^ 11 % 2 ^ 16 + r.minutes * 2 ^ 5 + r.seconds / 2

abbrev pub fat_date : Readable → ℕ
fat_date r = (r.year + (2 ^ 16 - 80)) * 2 ^ 9 % 2 ^ 16 + r.month * 2 ^ 5 + r.day

-- The attributes of an entry with the two bits as the node has them.
abbrev pub with_attributes : Node → ℕ → ℕ
with_attributes file a =
    a
    - a / 16 % 2 * 16
    - a / 2 % 2 * 2
    + (if file.is_dir then 16 else 0)
    + (if file.is_hidden then 2 else 0)

-- The entry at address `a`, made to match the node.
pub set_entry : (ℕ → ℕ) → ℕ → Node → Readable → Readable → Readable → ℕ → ℕ
set_entry m a file created modified accessed =
    let m0 =
      put_u16 (put_u16 m (a + 28) (file.file_length % 2 ^ 16)) (a + 30)
        (file.file_length / 2 ^ 16 % 2 ^ 16) in
    let m1 = poke m0 (a + 11) (with_attributes file (m (a + 11))) in
    let m2 = put_u16 (put_u16 m1 (a + 14) (fat_time created)) (a + 16) (fat_date created) in
    let m3 = put_u16 (put_u16 m2 (a + 22) (fat_time modified)) (a + 24) (fat_date modified) in
    put_u16 m3 (a + 18) (fat_date accessed)

abbrev pub found_entry : (ℕ → ℕ) → Option ℕ → Option (ℕ → ℕ)
found_entry dirents none = none
found_entry dirents (some i) = some (entry dirents i)

module _ {D : Type 0} (drive : Drive D) (v : Volume) (garbage : ℕ → ℕ) where
  -- The loop that reads the clusters, of which `j` have been read.
  pub read_clusters : List ℕ → ℕ → ℕ → D → (ℕ → ℕ) → Outcome (ℕ → ℕ)
  read_clusters [] j dir_size d m = done m
  read_clusters (c ∷ cs) j dir_size d m =
      let a = 32 * cluster_size v * j in
      if leb (a + cluster_size v) dir_size
      then read_clusters cs (j + 1) dir_size d
          (received (drive.read d (cluster_to_lba v c) 0 (cluster_size v)) m a)
      else wild

  -- The clusters of a directory, and its entries.
  pub read_dirents : ℕ → D → Table → ℕ → Outcome (List ℕ × (ℕ → ℕ))
  unfolding read_clusters
  read_dirents rounds d t cluster = get_cluster_chain rounds t cluster >>= λ clusters.
      read_clusters clusters 0 (length clusters * cluster_size v) d garbage >>= λ dirents.
      done (clusters, dirents)

  -- The loop that writes them back.
  pub write_back : List ℕ → ℕ → ℕ → (ℕ → ℕ) → D → Outcome D
  write_back [] j dir_size m d = done d
  write_back (c ∷ cs) j dir_size m d =
      let a = 32 * cluster_size v * j in
      if leb (a + cluster_size v) dir_size
      then write_back cs (j + 1) dir_size m
          (drive.write d (cluster_to_lba v c) 0 (bytes m a (cluster_size v))).1
      else wild

  abbrev pub error_file_not_found : ℕ
  error_file_not_found = 10

  -- An error number, the drive and the node; `now` is the time that `get_current_time_utc` returns.
  unfoldable pub update_dirent : ℕ → ℕ → D → Table → Node → Outcome (ℕ × D × Node)
  unfolding read_dirents find_cluster set_entry write_back
  update_dirent rounds now d t file =
      read_dirents rounds d t file.dir_cluster >>= λ (clusters, dirents).
      find_cluster (length clusters * cluster_size v / 32) 0 (no_name garbage) dirents file.cluster
      >>= λ found. elim found [
        | none ↦ done (error_file_not_found, d, file)
        | some (i, name) ↦
            let file' = record file { last_modification_time = now; last_access_time = now } in
            convert_to_readable_time file'.creation_time >>= λ created.
            convert_to_readable_time now >>= λ written.
            write_back clusters 0 (length clusters * cluster_size v)
              (set_entry dirents (32 * i) file' created written written) d
            >>= λ d'. done (0, d', file')
      ]

  -- The loop `while(nlen)`, which marks the same entry each time, has no further effect.
  unfoldable pub delete_dirent : ℕ → D → Table → ℕ → ℕ → Outcome (ℕ × D)
  unfolding read_dirents find_cluster write_back
  delete_dirent rounds d t dir_cluster cluster =
      read_dirents rounds d t dir_cluster >>= λ (clusters, dirents).
      find_cluster (length clusters * cluster_size v / 32) 0 (no_name garbage) dirents cluster
      >>= λ found. elim found [
        | none ↦ done (error_file_not_found, d)
        | some (i, name) ↦
            write_back clusters 0 (length clusters * cluster_size v) (poke dirents (32 * i) 0xE5) d
            >>= λ d'. done (0, d')
      ]

  -- The entry that `fat32_open` finds for the name.
  unfoldable pub open_entry : ℕ → D → Table → ℕ → List ℕ → Outcome (Option (ℕ → ℕ))
  unfolding read_dirents find_name
  open_entry rounds d t dir_cluster name =
      read_dirents rounds d t dir_cluster >>= λ (clusters, dirents).
      find_name (length clusters * cluster_size v / 32) 0 (no_name garbage) dirents name
      >>= λ found. done (found_entry dirents found)
