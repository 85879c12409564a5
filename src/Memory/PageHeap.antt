-- ===== src/Memory/PageHeap.antt =====
-- memory/kpageheap.c: 1024 pages for page tables and directories. The mapping that
-- `install_page_heap` sets up is not modelled.
pub mod Laws
mod Tests
use vk.Prelude.{
  ℕ, zero, suc, ◌+◌, ◌-◌, ◌*◌, ◌/◌, ◌%◌, ◌^◌, ◌&&◌, List, [], ◌∷◌, if◌then◌else◌, ◌==◌, leb, ltb,
  length, set, Outcome, done, fatal, wild, page_heap_full, ◌>>=◌,
}

abbrev pub kpheap_virt_base : ℕ
kpheap_virt_base = 0xC0400000

abbrev pub kpheap_block_size : ℕ
kpheap_block_size = 4096

-- `kpheap_blocks`, 0 for a free page, and the bytes of memory.
pub record PageHeap : Type 0 where
  pub blocks : List ℕ
  pub memory : ℕ → ℕ

abbrev pub page : ℕ → ℕ
page i = kpheap_virt_base + kpheap_block_size * i

-- `memset(dest, 0, n)`
abbrev pub clear : (ℕ → ℕ) → ℕ → ℕ → ℕ → ℕ
clear memory dest n a = if leb dest a && ltb a (dest + n) then 0 else memory a

-- The loop of `pt_alloc`: the index of the first free page, and the marks.
unfoldable pub take_free : ℕ → List ℕ → Outcome (ℕ × List ℕ)
take_free i [] = fatal page_heap_full
take_free i (b ∷ bs) =
    let rest = take_free (i + 1) bs >>= λ (j, xs). done (j, b ∷ xs) in
    if b == 0 then done (i, 1 ∷ bs) else rest

unfoldable pub pt_alloc : PageHeap → Outcome (ℕ × PageHeap)
unfolding take_free
pt_alloc h = take_free 0 h.blocks >>= λ (i, bs).
    done (page i, record h { blocks = bs; memory = clear h.memory (page i) kpheap_block_size })

pub pt_free : ℕ → PageHeap → Outcome PageHeap
pt_free pt h =
    let index = (pt + 2 ^ 32 - kpheap_virt_base) % 2 ^ 32 / kpheap_block_size in
    if ltb index (length h.blocks) then done (record h { blocks = set h.blocks index 0 }) else wild
