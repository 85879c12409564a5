-- ===== src/Filesystem/Ext2/Alloc/Tests.antt =====
-- One group of blocks of 1 KiB. Its block bitmap, in block 3, has the first nine bits set; its inode
-- bitmap, in block 4, has none.
use vk.Prelude.{ℕ, ◌+◌, ◌≡◌, refl, if◌then◌else◌, ◌==◌, bytes}
use vk.Filesystem.Drive.Ram.{ram}
use vk.Filesystem.Ext2.Alloc.{Layout, Ext2, block_alloc, inode_alloc}

abbrev layout : Layout
layout = record { superblock_offset = 0; block_size = 1024; blockgroup_count = 1 }

abbrev disk : ℕ → ℕ
disk a =
    if a == 2048
    then 3
    else if a == 2052
    then 4
    else if a == 2056
    then 5
    else if a == 3072
    then 255
    else if a == 3073
    then 1
    else 0

abbrev state : Ext2 (ℕ → ℕ)
state = record {
  drive_state = disk;
  superblock = λ q. if q == 33 then 32 else if q == 41 then 8 else 0;
}

inode_alloc-first : (inode_alloc ram layout (λ q. 0) state).0 ≡ 1
unfolding inode_alloc bytes
inode_alloc-first = refl

-- The tenth bit is taken, but the address of the table of inodes is added to its number.
block_alloc-number : (block_alloc ram layout (λ q. 0) state).0 ≡ 9 + 5
unfolding block_alloc bytes
block_alloc-number = refl
