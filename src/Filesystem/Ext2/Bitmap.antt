-- ===== src/Filesystem/Ext2/Bitmap.antt =====
-- The bitmaps of used blocks and inodes.
pub mod Marks
mod Tests
use vk.Prelude.{
  ℕ, ◌+◌, ◌*◌, ◌/◌, ◌%◌, ◌^◌, zero, suc, if◌then◌else◌, ◌==◌, poke, Option, none, some,
}

-- Bit `j` of a number: `v & (1 << j)` is 0 or not.
unfoldable pub bit_at : ℕ → ℕ → ℕ
bit_at v zero = v % 2
bit_at v (suc j) = bit_at (v / 2) j

-- The first bit from `j` on that is clear.
pub zero_bit : ℕ → ℕ → ℕ → Option ℕ
unfolding bit_at
zero_bit zero j v = none
zero_bit (suc rounds) j v =
    let rest = zero_bit rounds (j + 1) v in if bit_at v j == 0 then some j else rest

-- The number of the bit that was found in byte `i`, and the bitmap with that bit set.
abbrev pub marked : ℕ → (ℕ → ℕ) → Option ℕ → Option (ℕ × (ℕ → ℕ)) → Option (ℕ × (ℕ → ℕ))
marked i m (some j) rest = some (8 * i + j, poke m i (m i + 2 ^ j))
marked i m none rest = rest

-- `ext2_bitmap_mark_first_zero_bit` for the given number of bytes from byte `i` on; none for -1.
pub mark_from : ℕ → ℕ → (ℕ → ℕ) → Option (ℕ × (ℕ → ℕ))
unfolding zero_bit
mark_from zero i m = none
mark_from (suc len) i m = let rest = mark_from len (i + 1) m in marked i m (zero_bit 8 0 (m i)) rest

unfoldable pub bitmap_mark_first_zero_bit : ℕ → (ℕ → ℕ) → Option (ℕ × (ℕ → ℕ))
unfolding mark_from
bitmap_mark_first_zero_bit len bitmap = mark_from len 0 bitmap

-- `*(bitmap+byte) &= (0 << inbit)`
unfoldable pub bitmap_mark_bit_free : (ℕ → ℕ) → ℕ → ℕ → ℕ
bitmap_mark_bit_free bitmap bit = poke bitmap (bit / 8) 0
