-- ===== src/Filesystem/Files.antt =====
-- `read_file` and `write_file` of filesystem/vfs.c. What the drivers of the file systems keep is one
-- state; a node is named by a number. `fd->offset` is of 64 bits.
pub mod Reads
mod Tests
use vk.Prelude.{
  ℕ, ◌+◌, ◌-◌, ◌*◌, ◌%◌, ◌^◌, zero, suc, Bool, List, [], ◌∷◌, if◌then◌else◌, ◌==◌, ltb, leb, length,
}
use vk.Filesystem.Drive.{Reply, ok, err}

-- What a driver does for a node, at an offset.
pub record Driver (S : Type 0) : Type 0 where
  pub read : S → ℕ → ℕ → ℕ → Reply
  pub write : S → ℕ → ℕ → List ℕ → ℕ × S

-- The drivers, and what a node holds.
pub record Drivers (S : Type 0) : Type 0 where
  pub fat32 : Driver S
  pub ext2 : Driver S
  pub iso9660 : Driver S
  pub devfs : Driver S
  pub fs_type : ℕ → ℕ
  pub is_dir : S → ℕ → Bool
  pub file_length : S → ℕ → ℕ

pub record Fd : Type 0 where
  pub file : ℕ
  pub offset : ℕ

abbrev pub error_eof : ℕ
error_eof = 20

abbrev pub error_file_is_directory : ℕ
error_file_is_directory = 12

abbrev pub error_file_unsupported_file_system : ℕ
error_file_unsupported_file_system = 15

-- The count that is read, less if the file ends before.
abbrev pub clip : ℕ → ℕ → ℕ → ℕ
clip len offset count = if ltb len ((count + offset) % 2 ^ 64) then len - offset else count

-- An error number, the bytes that are put into the buffer, and the descriptor.
abbrev pub finish : Fd → ℕ → Reply → ℕ × List ℕ × Fd
finish fd count (ok bs) = (0, bs, record fd { offset = (fd.offset + count) % 2 ^ 64 })
finish fd count (err e) = (e, [], fd)

module _ {S : Type 0} (drivers : Drivers S) where
  -- The switch on the type of the file system.
  pub read_with : S → Fd → ℕ → Reply
  read_with s fd count =
      let t = drivers.fs_type fd.file in
      if t == 2
      then drivers.fat32.read s fd.file fd.offset count
      else if t == 4
      then drivers.iso9660.read s fd.file fd.offset count
      else if t == 3
      then drivers.ext2.read s fd.file fd.offset count
      else if t == 5
      then drivers.devfs.read s fd.file fd.offset count
      else err error_file_unsupported_file_system

  abbrev pub read_some : S → Fd → ℕ → ℕ × List ℕ × Fd
  read_some s fd count =
      if count == 0 then (0, 0 ∷ [], fd) else finish fd count (read_with s fd count)

  pub read_file : S → Fd → ℕ → ℕ × List ℕ × Fd
  unfolding read_with
  read_file s fd count =
      let len = drivers.file_length s fd.file in
      if drivers.is_dir s fd.file
      then (error_file_is_directory, [], fd)
      else if len == 0
      then read_some s fd count
      else if leb len fd.offset
      then (error_eof, 0 ∷ [], fd)
      else read_some s fd (clip len fd.offset count)

  pub write_with : S → Fd → List ℕ → ℕ × S
  write_with s fd buffer =
      let t = drivers.fs_type fd.file in
      if t == 2
      then drivers.fat32.write s fd.file fd.offset buffer
      else if t == 5
      then drivers.devfs.write s fd.file fd.offset buffer
      else if t == 3
      then drivers.ext2.write s fd.file fd.offset buffer
      else (error_file_unsupported_file_system, s)

  pub write_file : S → Fd → List ℕ → ℕ × S × Fd
  unfolding write_with
  write_file s fd buffer =
      let (e, s') = write_with s fd buffer in
      if drivers.is_dir s fd.file
      then (error_file_is_directory, s, fd)
      else if length buffer == 0
      then (0, s, fd)
      else (
        e,
        s',
        record fd { offset = if e == 0 then (fd.offset + length buffer) % 2 ^ 64 else fd.offset },
      )
