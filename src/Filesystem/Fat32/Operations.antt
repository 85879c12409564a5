-- ===== src/Filesystem/Fat32/Operations.antt =====
-- The operations of the file system on the state it keeps: the drive, the allocation table and the
-- list of nodes.
use vk.Prelude.{
  ℕ, ◌+◌, List, if◌then◌else◌, ◌==◌, ltb, length, Option, none, some, Outcome, done, wild, ◌>>=◌,
}
use vk.Filesystem.Drive.{Reply, Drive}
use vk.Filesystem.Fat32.Table.{Table, free_cluster_chain}
use vk.Filesystem.Fat32.File.{Volume, read_file}
use vk.Filesystem.Fat32.Write.{write_file}
use vk.Filesystem.Fat32.Directory.{Node, open_entry, update_dirent, delete_dirent}
use vk.Filesystem.Fat32.Cache.{normalize_cache}

pub record Fat32 (D : Type 0) : Type 0 where
  pub drive_state : D
  pub fat_table : Table
  pub inode_cache : List Node

module _ {D : Type 0} (drive : Drive D) (v : Volume) (garbage : ℕ → ℕ) where
  -- The node of the entry that was found.
  abbrev pub opened : Fat32 D → ℕ → Option (ℕ → ℕ) → Outcome (Option Node × Fat32 D)
  opened fs cluster none = done (none, fs)
  opened fs cluster (some e) = normalize_cache e cluster fs.inode_cache >>= λ (n, cache).
      done (some n, record fs { inode_cache = cache })

  pub fat32_open : ℕ → Fat32 D → Node → List ℕ → Outcome (Option Node × Fat32 D)
  unfolding open_entry normalize_cache
  fat32_open rounds fs dir name =
      open_entry drive v garbage rounds fs.drive_state fs.fat_table dir.cluster name >>= λ found.
      opened fs dir.cluster found

  pub fat32_read_file : ℕ → Fat32 D → Node → ℕ → ℕ → Outcome Reply
  unfolding read_file
  fat32_read_file rounds fs file offset count =
      read_file drive v rounds fs.drive_state fs.fat_table file.cluster offset count

  -- The error of `update_dirent` is ignored. The list of nodes holds the file, which `write_file`
  -- changes there; the node that is returned is the changed one.
  pub fat32_write_file : ℕ → ℕ → Fat32 D → Node → ℕ → List ℕ → Outcome (Fat32 D × Node)
  unfolding write_file update_dirent
  fat32_write_file rounds now fs file offset buffer =
      write_file drive v rounds fs.drive_state fs.fat_table file.cluster file.file_length offset
        buffer
      >>= λ (d, t, n).
          let grown =
            update_dirent drive v garbage rounds now d t (record file { file_length = n })
            >>= λ (_, d', file'). done (record fs { drive_state = d'; fat_table = t }, file') in
          if ltb file.file_length (length buffer + offset)
          then grown
          else done (record fs { drive_state = d; fat_table = t }, file)

  -- Up to the loop that takes the node out of the list.
  pub unlink_entry : ℕ → Fat32 D → List ℕ → Node → Outcome (ℕ × Fat32 D)
  unfolding fat32_open delete_dirent free_cluster_chain
  unlink_entry rounds fs name dir = fat32_open rounds fs dir name >>= λ (found, fs'). elim found [
    | none ↦ wild
    | some file ↦
        delete_dirent drive v garbage rounds fs'.drive_state fs'.fat_table dir.cluster file.cluster
        >>= λ (e, d).
            let freed = free_cluster_chain rounds fs'.fat_table file.cluster >>= λ t.
            done (0, record fs' { drive_state = d; fat_table = t }) in
            if e == 0 then freed else done (e, record fs' { drive_state = d })
  ]
