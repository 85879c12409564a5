-- ===== src/Memory/Heap/Alloc.antt =====
-- `kmalloc` where the heap need not be expanded, or cannot be.
use native.Mathlib.Decide.{ℕ_discrete}
use vk.Prelude.{
  ℕ, suc, ◌+◌, ◌*◌, ◌/◌, ◌%◌, ◌^◌, ◌≤◌, ◌<◌, ◌≡◌, refl, ◌∙◌, Option, none, some, List, true, leb,
  align_up-word, Outcome, done, fatal, wild, no_fuel, heap_full, ◌>>=◌, arith,
}
use vk.Memory.Heap.{
  Header, kheap_base_start, free_kvm_start, Kheap, find, kheap_expand, kmalloc_aligned, kmalloc,
}
use vk.Memory.Heap.Walk.{Carved, FindSpec, find-FindSpec}
use vk.Memory.Heap.Laws.{IsValid, Allocated, Allocates, Unfit}

Carved-Allocated :
    (n p : ℕ) (h : Kheap) (bs : List Header)
    → IsValid h
    → Carved n kheap_base_start h.blocks p bs
    → Allocated n h p (record h { blocks = bs })
Carved-Allocated n p h bs v c = record {
  valid = record {
    span = omega (arith, v.span, c.same_total);
    good = c.good;
    limit = v.limit;
    chunks = v.chunks;
  };
  aligned = c.aligned;
  fresh = c.fresh;
  got = c.got;
  here = c.here;
  enough = c.enough;
  above = c.above;
  inside = omega (arith, c.inside, v.span);
  keeps = λ q sz l. elim (ℕ_discrete q p) [ yes e ↦ cc | no ne ↦ c.others q ne ∙ l ];
  same_end = refl;
}

-- What the search comes to, and the expansion `k` that follows it if it fails.
find-Allocates :
    (n : ℕ) (h : Kheap) (r : Outcome (Option (ℕ × List Header))) (k : Outcome (ℕ × Kheap))
    → IsValid h
    → FindSpec n kheap_base_start h.blocks r
    → (Unfit n h → k ≡ fatal heap_full)
    → Allocates n h
        (r >>= λ r. elim r [ some (p, bs) ↦ done (p, record h { blocks = bs }) | none ↦ k ])
find-Allocates n h (done none) k v f next = rw (next f) (f, refl)
find-Allocates n h (done (some (p, bs))) k v f next = Carved-Allocated n p h bs v f
find-Allocates n h (fatal e) k v f next = elim f [ ]
find-Allocates n h wild k v f next = elim f [ ]
find-Allocates n h no_fuel k v f next = elim f [ ]

module _ (map_memory : ℕ → ℕ → ℕ → Kheap → Outcome Kheap) (page_dirs : List ℕ) where
  kheap_expand-full :
      (rounds n : ℕ) (h : Kheap)
      → free_kvm_start ≤ h.base_end
      → (kheap_expand map_memory page_dirs h >>= kmalloc_aligned map_memory page_dirs rounds n)
        ≡ fatal heap_full
  unfolding kheap_expand
  kheap_expand-full rounds n h end =
      let full : leb free_kvm_start h.base_end ≡ true = ground (arith, end) in rw full refl

  kmalloc_aligned-Allocates :
      (rounds n : ℕ) (h : Kheap)
      → IsValid h
      → n % 4 ≡ 0
      → (Unfit n h → free_kvm_start ≤ h.base_end)
      → Allocates n h (kmalloc_aligned map_memory page_dirs (suc rounds) n h)
  unfolding kmalloc_aligned
  kmalloc_aligned-Allocates rounds n h v a room =
      find-Allocates n h (find n kheap_base_start h.blocks)
        (kheap_expand map_memory page_dirs h >>= kmalloc_aligned map_memory page_dirs rounds n) v
        (find-FindSpec n kheap_base_start h.blocks v.good refl a)
        (λ u. kheap_expand-full rounds n h (room u))

  pub kmalloc-Allocates :
      (rounds size : ℕ) (h : Kheap)
      → IsValid h
      → size < 2 ^ 32
      → (Unfit ((size + 3) / 4 * 4 % 2 ^ 32) h → free_kvm_start ≤ h.base_end)
      → Allocates ((size + 3) / 4 * 4 % 2 ^ 32) h (kmalloc map_memory page_dirs (suc rounds) size h)
  unfolding kmalloc
  kmalloc-Allocates rounds size h v small room =
      rw (align_up-word size small)
        (kmalloc_aligned-Allocates rounds ((size + 3) / 4 * 4 % 2 ^ 32) h v (omega arith) room)
