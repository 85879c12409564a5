-- ===== src/Memory/Heap.antt =====
-- memory/kheap.c: `kmalloc`, `kfree` and `krealloc`. The heap is the sequence of the block headers
-- that a walk from KHEAP_BASE_START meets, each `size + 8` bytes behind the one before it, up to
-- KHEAP_BASE_END. Where corrupted headers would lead the walk elsewhere is not modelled, so no
-- address wraps; nor is what the blocks hold.
pub mod Walk
pub mod Merge
pub mod Laws
pub mod Alloc
pub mod Realloc
mod Tests
use vk.Prelude.{
  ℕ, zero, suc, ◌+◌, ◌-◌, ◌%◌, ◌^◌, Bool, Option, none, some, List, [], ◌∷◌, ◌++◌, ◌&&◌, not,
  if◌then◌else◌, ◌==◌, leb, ltb, align_up, Outcome, done, fatal, wild, no_fuel, unknown_block,
  heap_full, realloc_less, ◌>>=◌,
}

-- `block_header_t`, 8 bytes
pub record Header : Type 0 where
  pub size : ℕ
  pub magic : ℕ
  pub status : ℕ

abbrev pub header : ℕ → ℕ → ℕ → Header
header n m s = record { size = n; magic = m; status = s }

-- BLOCK_HEADER_MAGIC (memory/mem.h)
abbrev pub block_header_magic : ℕ
block_header_magic = 0xB1

abbrev pub kheap_base_start : ℕ
kheap_base_start = 0xC0800000

abbrev pub expansion : ℕ
expansion = 0x400000

-- FREE_KVM_START (memory/mem.h)
abbrev pub free_kvm_start : ℕ
free_kvm_start = 0xE0800000

-- The headers, and KHEAP_BASE_END.
pub record Kheap : Type 0 where
  pub blocks : List Header
  pub base_end : ℕ

pub kheap_install : Kheap
kheap_install = record {
  blocks = header (expansion - 8) block_header_magic 0 ∷ [];
  base_end = kheap_base_start + expansion;
}

abbrev pub bad : Header → Bool
bad b = not (b.magic == block_header_magic)

-- The block marked as reserved, and split if it is big.
pub carve : ℕ → Header → List Header → List Header
carve size b rest =
    if ltb 8 (b.size - size)
    then header size b.magic 1 ∷ header (b.size - size - 8) block_header_magic 0 ∷ rest
    else record b { status = 1 } ∷ rest

abbrev pub behind : Header → Option (ℕ × List Header) → Outcome (Option (ℕ × List Header))
behind b none = done none
behind b (some (p, xs)) = done (some (p, b ∷ xs))

-- The loop of `kmalloc` from the block at `i`; `none` when it passes the last block.
pub find : ℕ → ℕ → List Header → Outcome (Option (ℕ × List Header))
find size i [] = done none
find size i (b ∷ bs) =
    let rest = find size (i + (b.size + 8)) bs >>= behind b in
    if bad b
    then fatal unknown_block
    else if (b.status == 0) && leb size b.size
    then done (some (i + 8, carve size b bs))
    else rest

-- `merge_free_blocks`; the first argument is the free block that is being grown, if there is one.
pub merge_from : Option Header → List Header → Outcome (List Header)
merge_from none [] = done []
merge_from (some c) [] = done (c ∷ [])
merge_from none (b ∷ bs) =
    let skip = merge_from none bs >>= λ xs. done (b ∷ xs) in
    let grow = merge_from (some b) bs in
    if bad b then fatal unknown_block else if b.status == 0 then grow else skip
merge_from (some c) (b ∷ bs) =
    let skip = merge_from none bs >>= λ xs. done (c ∷ b ∷ xs) in
    let grow = merge_from (some (record c { size = c.size + (b.size + 8) })) bs in
    if bad b then fatal unknown_block else if b.status == 0 then grow else skip

pub merge_free_blocks : List Header → Outcome (List Header)
unfolding merge_from
merge_free_blocks bs = merge_from none bs

-- The change of the status at the header of `pointer`, from the block at `i` on.
pub clear_status : ℕ → ℕ → List Header → Outcome (List Header)
clear_status pointer i [] = wild
clear_status pointer i (b ∷ bs) =
    let rest = clear_status pointer (i + (b.size + 8)) bs >>= λ xs. done (b ∷ xs) in
    if i + 8 == pointer
    then (if bad b then fatal unknown_block else done (record b { status = 0 } ∷ bs))
    else rest

pub kfree : ℕ → Kheap → Outcome Kheap
kfree pointer h = clear_status pointer kheap_base_start h.blocks >>= λ bs.
    merge_free_blocks bs >>= λ xs. done (record h { blocks = xs })

-- The header that `pointer` lies behind.
pub header_at : ℕ → ℕ → List Header → Outcome Header
header_at pointer i [] = wild
header_at pointer i (b ∷ bs) =
    if i + 8 == pointer then done b else header_at pointer (i + (b.size + 8)) bs

pub kheap_get_size : ℕ → Kheap → Outcome ℕ
kheap_get_size pointer h = header_at pointer kheap_base_start h.blocks >>= λ b.
    if bad b then fatal unknown_block else done b.size

-- `map_memory size virt_addr page_directory` (memory/paging.c) stands for any effect on this heap; that
-- it calls `kmalloc` itself, for the nodes of the physical allocator, is not modelled; `page_dirs` are the page directories of the
-- kernel and of the processes.
module _ (map_memory : ℕ → ℕ → ℕ → Kheap → Outcome Kheap) (page_dirs : List ℕ) where
  pub map_all : List ℕ → Kheap → Outcome Kheap
  map_all [] h = done h
  map_all (pd ∷ pds) h = map_memory expansion h.base_end pd h >>= map_all pds

  pub kheap_expand : Kheap → Outcome Kheap
  kheap_expand h =
      if leb free_kvm_start h.base_end
      then fatal heap_full
      else map_all page_dirs h >>= λ g.
          merge_free_blocks (g.blocks ++ (header (expansion - 8) block_header_magic 0 ∷ []))
          >>= λ bs. done (record { blocks = bs; base_end = (g.base_end + expansion) % 2 ^ 32 })

  -- `kmalloc` on a size that is aligned; it calls itself after each expansion.
  pub kmalloc_aligned : ℕ → ℕ → Kheap → Outcome (ℕ × Kheap)
  kmalloc_aligned zero size h = no_fuel
  kmalloc_aligned (suc rounds) size h = find size kheap_base_start h.blocks >>= λ r. elim r [
    | some (p, bs) ↦ done (p, record h { blocks = bs })
    | none ↦ kheap_expand h >>= kmalloc_aligned rounds size
  ]

  pub kmalloc : ℕ → ℕ → Kheap → Outcome (ℕ × Kheap)
  kmalloc rounds size h = kmalloc_aligned rounds (align_up size 4) h

  pub krealloc : ℕ → ℕ → ℕ → Kheap → Outcome (ℕ × Kheap)
  krealloc rounds pointer newsize h = header_at pointer kheap_base_start h.blocks >>= λ b.
      if ltb newsize b.size
      then fatal realloc_less
      else kmalloc rounds newsize h >>= λ (np, g). kfree pointer g >>= λ g'. done (np, g')
