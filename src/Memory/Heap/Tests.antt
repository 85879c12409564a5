-- ===== src/Memory/Heap/Tests.antt =====
-- A heap with one reserved block, and a `map_memory` that needs no memory of the heap.
use vk.Prelude.{
  ℕ, ◌+◌, ◌*◌, ◌/◌, ◌%◌, ◌^◌, ◌≤◌, ◌≡◌, refl, some, true, [], ◌∷◌, leb, arith, align_up, Outcome,
  done,
}
use vk.Memory.Heap.{
  header, free_kvm_start, Kheap, carve, find, merge_free_blocks, kfree, kheap_install, kheap_expand,
  map_all, kmalloc_aligned, kmalloc, krealloc,
}
use vk.Memory.Heap.Walk.{live_at}
use vk.Memory.Heap.Laws.{IsValid, live, Unfit, Frees, kfree-Frees}
use vk.Memory.Heap.Realloc.{Moves, krealloc-Moves}

abbrev map_nothing : ℕ → ℕ → ℕ → Kheap → Outcome Kheap
map_nothing size virt pd h = done h

-- 100 bytes reserved in front, the rest free.
abbrev one : Kheap
one = record { blocks = header 100 0xB1 1 ∷ header 0x3FFF8C 0xB1 0 ∷ []; base_end = 0xC0C00000 }

one-IsValid : IsValid one
one-IsValid = record {
  span = refl;
  good = (record { magic = refl; words = refl }, (record { magic = refl; words = refl }, tt));
  limit = omega arith;
  chunks = refl;
}

first_kmalloc : kmalloc map_nothing (0 ∷ []) 129 98 kheap_install ≡ done (0xC0800008, one)
unfolding kmalloc kmalloc_aligned find carve kheap_install align_up
first_kmalloc = refl

-- A request that fills more than the heap doubles it.
second_chunk :
    kmalloc map_nothing (0 ∷ []) 129 0x400000 kheap_install
    ≡ done (
      0xC0800008,
      record {
        blocks = header 0x400000 0xB1 1 ∷ header 0x3FFFF0 0xB1 0 ∷ [];
        base_end = 0xC1000000;
      },
    )
unfolding kmalloc kmalloc_aligned find carve kheap_install kheap_expand map_all merge_free_blocks
    align_up
second_chunk = refl

one-live : live one 0xC0800008 ≡ some 100
unfolding live_at
one-live = refl

-- The second block holds what is asked for.
one-fits : (n : ℕ) → leb n 0x3FFF8C ≡ true → Unfit n one → free_kvm_start ≤ 0xC0C00000
one-fits n fits u = absurd (ground (arith, fits, u.1.0))

kfree-Frees_example : Frees 0xC0800008 one (kfree 0xC0800008 one)
kfree-Frees_example = kfree-Frees 0xC0800008 100 one one-IsValid one-live

krealloc-Moves_example :
    Moves
      ((200 + 3) / 4 * 4 % 2 ^ 32)
      0xC0800008
      100
      one
      (krealloc map_nothing (0 ∷ []) 1 0xC0800008 200 one)
krealloc-Moves_example =
    krealloc-Moves map_nothing (0 ∷ []) 0 0xC0800008 100 200 one one-IsValid one-live (omega arith)
      (omega arith) (one-fits 200 refl)
