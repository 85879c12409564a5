-- ===== src/Memory/Physical.antt =====
-- memory/physical.c: the blocks of physical memory. A block is free if its type is
-- PHYS_FREE_BLOCK_TYPE. `reserve_specific` and `physmem_get` are not modelled.
pub mod Laws
mod Tests
use vk.Prelude.{
  ℕ, ◌+◌, ◌%◌, ◌^◌, List, [], ◌∷◌, ◌&&◌, ◌||◌, if◌then◌else◌, ◌==◌, leb, ltb, align_up, Outcome,
  done, fatal, no_physical, not_freeable, no_block, not_present, ◌>>=◌,
}
use vk.Memory.Blocks.{Block, split, release}

-- PHYS_*_BLOCK_TYPE (memory/mem.h)
abbrev pub free_block_type : ℕ
free_block_type = 1

abbrev pub kernelf_block_type : ℕ
kernelf_block_type = 11

abbrev pub user_block_type : ℕ
user_block_type = 20

get_free_mem_from : ℕ → List Block → ℕ
get_free_mem_from total [] = total
get_free_mem_from total (curr ∷ next) =
    get_free_mem_from
      (if (curr.kind == 1) && ltb 0x100000 curr.base then (total + curr.size) % 2 ^ 32 else total)
      next

pub get_free_mem : List Block → ℕ
unfolding get_free_mem_from
get_free_mem bs = get_free_mem_from 0 bs

reserve_from : ℕ → ℕ → List Block → Outcome (ℕ × List Block)
reserve_from size type [] = fatal no_physical
reserve_from size type (curr ∷ next) =
    let rest = reserve_from size type next >>= λ (a, bs). done (a, curr ∷ bs) in
    if leb 0x100000 curr.base && (curr.kind == free_block_type)
    then (if ltb curr.size size then rest else done (curr.base, split 1 size type curr next))
    else rest

-- The address of the reserved block, and the list.
pub reserve_block : ℕ → ℕ → List Block → Outcome (ℕ × List Block)
unfolding reserve_from
reserve_block size type bs = reserve_from (align_up size 4096) type bs

free_from : ℕ → List Block → List Block → Outcome (List Block)
free_from base_addr prev [] = fatal no_block
free_from base_addr prev (curr ∷ next) =
    let rest = free_from base_addr (curr ∷ prev) next in
    if curr.base == base_addr
    then (if (curr.kind == kernelf_block_type) || (curr.kind == user_block_type)
        then done (release free_block_type prev curr next)
        else fatal not_freeable)
    else rest

pub free_block : ℕ → List Block → Outcome (List Block)
unfolding free_from
free_block base_addr bs = free_from base_addr [] bs

pub get_block : ℕ → List Block → Outcome Block
get_block some_addr [] = fatal not_present
get_block some_addr (curr ∷ next) =
    if ltb curr.base some_addr && ltb some_addr ((curr.base + curr.size) % 2 ^ 32)
    then done curr
    else get_block some_addr next
