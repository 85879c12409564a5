-- ===== src/Filesystem/Ext2/Alloc.antt =====
-- Allocation of blocks and inodes: a bit of a bitmap for each, a bitmap for each group of them. The
-- errors of the drive are ignored, as in the code; `garbage` is what fresh memory holds.
mod Tests
use vk.Prelude.{
  ℕ, ◌+◌, ◌-◌, ◌*◌, ◌/◌, ◌%◌, ◌^◌, zero, suc, if◌then◌else◌, ◌==◌, ltb, Option, none, some, bytes,
  u16_at, u32_at, put_u16, put_u32, Outcome, done, wild,
}
use vk.Filesystem.Drive.{Drive, received}
use vk.Filesystem.Ext2.Bitmap.{bitmap_mark_first_zero_bit, bitmap_mark_bit_free}

-- What the functions use of `ext2fs_specific_t`, but for the superblock.
pub record Layout : Type 0 where
  pub superblock_offset : ℕ
  pub block_size : ℕ
  pub blockgroup_count : ℕ

-- The drive and the superblock in memory.
pub record Ext2 (D : Type 0) : Type 0 where
  pub drive_state : D
  pub superblock : ℕ → ℕ

-- What blocks and inodes differ in: where a group's descriptor has the address of the bitmap and the
-- count of what is free, where the superblock has its count, and the number of bit `n` of group `i`.
pub record Pool : Type 0 where
  pub bitmap : ℕ
  pub descriptor_count : ℕ
  pub superblock_count : ℕ
  pub number : (ℕ → ℕ) → (ℕ → ℕ) → ℕ → ℕ → ℕ

abbrev pub block_pool : Pool
block_pool = record {
  bitmap = 0;
  descriptor_count = 12;
  superblock_count = 12;
  number = λ superblock bg i n. (i * u32_at superblock 32 + u32_at bg 8 + n) % 2 ^ 32;
}

abbrev pub inode_pool : Pool
inode_pool = record {
  bitmap = 4;
  descriptor_count = 14;
  superblock_count = 16;
  number = λ superblock bg i n. (i * u32_at superblock 40 + n + 1) % 2 ^ 32;
}

-- `ext2->superblock_offset+BLOCK_OFFSET(block)`
abbrev pub block_sector : Layout → ℕ → ℕ
block_sector l block = (l.superblock_offset + block * (l.block_size / 512)) % 2 ^ 32

abbrev pub descriptor_sector : Layout → ℕ
descriptor_sector l = block_sector l (if l.block_size == 1024 then 2 else 1)

module _ {D : Type 0} (drive : Drive D) (l : Layout) (garbage : ℕ → ℕ) where
  -- The descriptor of group `i`.
  abbrev pub descriptor : D → ℕ → ℕ → ℕ
  descriptor d i = received (drive.read d (descriptor_sector l) (i * 32 % 2 ^ 32) 32) garbage 0

  -- A bitmap, of one block.
  abbrev pub bitmap_of : D → ℕ → ℕ → ℕ
  bitmap_of d block = received (drive.read d (block_sector l block) 0 l.block_size) garbage 0

  -- The drive with the marked bitmap, and then with both counts taken down by one.
  abbrev pub with_bitmap : Pool → (ℕ → ℕ) → (ℕ → ℕ) → D → D
  with_bitmap p bg bitmap d =
      (drive.write d (block_sector l (u32_at bg p.bitmap)) 0 (bytes bitmap 0 l.block_size)).1

  abbrev pub with_counts : Pool → ℕ → (ℕ → ℕ) → Ext2 D → Ext2 D
  with_counts p i bg s =
      let bg' =
        put_u16 bg p.descriptor_count ((u16_at bg p.descriptor_count + (2 ^ 16 - 1)) % 2 ^ 16) in
      let d =
        (drive.write s.drive_state (descriptor_sector l) (i * 32 % 2 ^ 32) (bytes bg' 0 32)).1 in
      let superblock =
        put_u32 s.superblock p.superblock_count
          ((u32_at s.superblock p.superblock_count + (2 ^ 32 - 1)) % 2 ^ 32) in
      let d' = (drive.write d ((l.superblock_offset + 2) % 2 ^ 32) 0 (bytes superblock 0 236)).1 in
      record { drive_state = d'; superblock = superblock }

  -- Group `i`, by what the search of its bitmap has come to, or else the groups behind it.
  abbrev pub alloc_in : Pool → ℕ → (ℕ → ℕ) → Ext2 D → Option (ℕ × (ℕ → ℕ)) → ℕ × Ext2 D → ℕ × Ext2 D
  alloc_in p i bg s none rest = rest
  alloc_in p i bg s (some (n, bitmap)) rest = (
    p.number s.superblock bg i n,
    with_counts p i bg (record s { drive_state = with_bitmap p bg bitmap s.drive_state }),
  )

  -- The loop over the groups, from group `i` on; 0 for none.
  pub alloc_groups : Pool → ℕ → ℕ → Ext2 D → ℕ × Ext2 D
  unfolding bitmap_mark_first_zero_bit
  alloc_groups p zero i s = (0, s)
  alloc_groups p (suc groups) i s =
      let rest = alloc_groups p groups (i + 1) s in
      let bg = descriptor s.drive_state i in
      alloc_in p i bg s
        (bitmap_mark_first_zero_bit l.block_size (bitmap_of s.drive_state (u32_at bg p.bitmap)))
        rest

  unfoldable pub block_alloc : Ext2 D → ℕ × Ext2 D
  unfolding alloc_groups
  block_alloc s = alloc_groups block_pool l.blockgroup_count 0 s

  unfoldable pub inode_alloc : Ext2 D → ℕ × Ext2 D
  unfolding alloc_groups
  inode_alloc s = alloc_groups inode_pool l.blockgroup_count 0 s

  -- `wild` if the groups have no blocks or if the bit is not in the bitmap.
  unfoldable pub block_free : ℕ → Ext2 D → Outcome (Ext2 D)
  unfolding bitmap_mark_bit_free
  block_free block s =
      let blocks_per_blockgroup = u32_at s.superblock 32 in
      let block_group = block / blocks_per_blockgroup in
      let bg = descriptor s.drive_state block_group in
      let bit_to_mark = block - block_group * blocks_per_blockgroup in
      let bitmap = bitmap_mark_bit_free (bitmap_of s.drive_state (u32_at bg 0)) bit_to_mark in
      if blocks_per_blockgroup == 0
      then wild
      else if ltb (bit_to_mark / 8) l.block_size
      then done (record s { drive_state = with_bitmap block_pool bg bitmap s.drive_state })
      else wild
