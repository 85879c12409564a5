-- ===== src/Memory/Physical/Tests.antt =====
-- A small memory map.
use vk.Prelude.{◌≡◌, refl, List, [], ◌∷◌, arith, align_up, fatal, no_physical, not_freeable}
use vk.Memory.Blocks.{Block, block}
use vk.Memory.Blocks.Contract.{IsValid, Reserves, Frees}
use vk.Memory.Physical.{get_free_mem, reserve_block, free_block}
use vk.Memory.Physical.Laws.{fits, freeable, reserve_block-Reserves, free_block-Frees}

-- Low memory, the kernel, a user block and free memory up to 16 MiB.
abbrev memory_map : List Block
memory_map =
    block 0 0x100000 2
    ∷ block 0x100000 0x300000 10
    ∷ block 0x400000 0x1000 20
    ∷ block 0x401000 0xBFF000 1
    ∷ []

memory_map-IsValid : IsValid 1 0 0x1000000 memory_map
memory_map-IsValid = record {
  tiles = (refl, (refl, (refl, (refl, refl))));
  apart = (refl, (refl, (refl, (refl, tt))));
}

free_bytes : get_free_mem memory_map ≡ 0xBFF000
unfolding get_free_mem
free_bytes = refl

-- The kernel's own block may not be freed.
kernel_stays : free_block 0x100000 memory_map ≡ fatal not_freeable
unfolding free_block
kernel_stays = refl

reserve_block-Reserves_example :
    let n = align_up 6000 4096 in
    Reserves (fits n) 1 20 no_physical 0 0x1000000 n memory_map (reserve_block 6000 20 memory_map)
reserve_block-Reserves_example =
    reserve_block-Reserves 20 6000 0 0x1000000 memory_map memory_map-IsValid (omega arith) refl

free_block-Frees_example :
    Frees freeable 1 not_freeable 0 0x1000000 0x400000 memory_map (free_block 0x400000 memory_map)
free_block-Frees_example =
    free_block-Frees 0x400000 0 0x1000000 memory_map memory_map-IsValid (omega arith)
