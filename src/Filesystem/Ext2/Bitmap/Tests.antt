-- ===== src/Filesystem/Ext2/Bitmap/Tests.antt =====
-- A bitmap of two bytes, the first of which is full.
use vk.Prelude.{ℕ, ◌/◌, ◌<◌, ◌≡◌, ◌≢◌, refl, some, if◌then◌else◌, ◌==◌, poke}
use vk.Filesystem.Ext2.Bitmap.{bitmap_mark_first_zero_bit, bitmap_mark_bit_free}
use vk.Filesystem.Ext2.Bitmap.Marks.{bit, bitmap_mark_bit_free-byte}

abbrev bitmap : ℕ → ℕ
bitmap q = if q == 0 then 255 else if q == 1 then 3 else 0

bitmap-marked : bitmap_mark_first_zero_bit 2 bitmap ≡ some (10, poke bitmap 1 7)
unfolding bitmap_mark_first_zero_bit
bitmap-marked = refl

bitmap_mark_bit_free-byte_example :
    ((k : ℕ) → k / 8 ≡ 1 → bit (bitmap_mark_bit_free (poke bitmap 1 7) 10) k ≡ 0)
    × ((k : ℕ) → k / 8 ≢ 1 → bit (bitmap_mark_bit_free (poke bitmap 1 7) 10) k ≡ bit bitmap k)
    × ((k : ℕ) → k < 10 → bit bitmap k ≡ 1)
bitmap_mark_bit_free-byte_example =
    bitmap_mark_bit_free-byte 2 bitmap (poke bitmap 1 7) 10 bitmap-marked
