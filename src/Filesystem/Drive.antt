-- ===== src/Filesystem/Drive.antt =====
-- What the drivers of file systems use of storage/block_devices.c: an error number, which is 0 for
-- ERROR_NONE, beside the bytes that are read or the drive that is written.
pub mod Ram
pub mod Polled
use vk.Prelude.{
  ℕ, ◌+◌, ◌*◌, ◌-◌, ◌%◌, ◌^◌, ◌≡◌, zero, suc, List, [], ◌∷◌, ◌++◌, if◌then◌else◌, ltb, leb, ◌&&◌,
  length, get_or, bytes, copy_in,
}

-- The bytes that a read returns, or an error number.
pub data Reply : Type 0 where
  ok : List ℕ → Reply
  err : ℕ → Reply

-- `block_read_flexible drive sector offset count` and
-- `block_write_flexible drive sector offset bytes`.
pub record Drive (D : Type 0) : Type 0 where
  pub read : D → ℕ → ℕ → ℕ → Reply
  pub write : D → ℕ → ℕ → List ℕ → ℕ × D

-- What a read leaves in memory at `a`; its error is ignored.
abbrev pub received : Reply → (ℕ → ℕ) → ℕ → ℕ → ℕ
received (ok bs) m a = copy_in m a bs
received (err e) m a = m
