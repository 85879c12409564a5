-- ===== src/Memory/Blocks.antt =====
-- What memory/physical.c and memory/kvmheap.c have in common. Each keeps a doubly linked list of
-- blocks that lie one behind the other, splits the first free block that is large enough, and
-- merges a freed block with the free blocks on both sides. The list is modelled by the sequence of
-- its blocks: `next` and `prev` of a block are its neighbours.
pub mod Laws
pub mod Merge
pub mod Search
pub mod Contract
use vk.Prelude.{ℕ, ◌+◌, ◌-◌, ◌%◌, ◌^◌, List, [], ◌∷◌, if◌then◌else◌, ◌==◌}

-- `p_block_t` with its type, `vm_block_t` with its address and status.
pub record Block : Type 0 where
  pub base : ℕ
  pub size : ℕ
  pub kind : ℕ

abbrev pub block : ℕ → ℕ → ℕ → Block
block a n k = record { base = a; size = n; kind = k }

-- The block split in two, the first part `n` bytes long and marked `k`, the second free.
unfoldable pub split : ℕ → ℕ → ℕ → Block → List Block → List Block
split free n k b rest = block b.base n k ∷ block ((b.base + n) % 2 ^ 32) (b.size - n) free ∷ rest

-- The loops of the two functions that free: `prev`, the nearest block first, ...
unfoldable pub merge_before : ℕ → List Block → Block → List Block × Block
merge_before free [] c = ([], c)
merge_before free (m ∷ before) c =
    let merged = merge_before free before (record m { size = (m.size + c.size) % 2 ^ 32 }) in
    if m.kind == free then merged else (m ∷ before, c)

-- ... and `next`.
unfoldable pub merge_after : ℕ → Block → List Block → List Block
merge_after free c [] = c ∷ []
merge_after free c (m ∷ after) =
    let merged = merge_after free (record c { size = (c.size + m.size) % 2 ^ 32 }) after in
    if m.kind == free then merged else c ∷ m ∷ after

-- Puts the blocks that the search has passed, the last one first, back in front.
abbrev pub unwind : List Block → List Block → List Block
unwind [] after = after
unwind (b ∷ before) after = unwind before (b ∷ after)

-- A freed block, marked free, with its neighbours on both sides.
unfoldable pub release : ℕ → List Block → Block → List Block → List Block
unfolding merge_before merge_after
release free before b after =
    let (before', b') = merge_before free before (record b { kind = free }) in
    unwind before' (merge_after free b' after)
