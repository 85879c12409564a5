-- ===== src/Filesystem/Drive/Ram.antt =====
-- A drive that is a memory of bytes.
use vk.Prelude.{ℕ, ◌+◌, ◌*◌, bytes, copy_in}
use vk.Filesystem.Drive.{ok, Drive}

abbrev pub ram : Drive (ℕ → ℕ)
ram = record {
  read = λ d sector offset count. ok (bytes d (512 * sector + offset) count);
  write = λ d sector offset src. (0, copy_in d (512 * sector + offset) src);
}
