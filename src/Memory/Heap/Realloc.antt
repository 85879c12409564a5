-- ===== src/Memory/Heap/Realloc.antt =====
-- `krealloc` and `kheap_get_size`.
use vk.Prelude.{
  ℕ, suc, ◌+◌, ◌*◌, ◌/◌, ◌%◌, ◌^◌, ◌≤◌, ◌<◌, ◌≡◌, ◌≢◌, refl, true, false, none, some, List, [], ◌∷◌,
  ◌==◌, ltb, Outcome, done, fatal, wild, no_fuel, realloc_less, heap_full, ◌>>=◌, arith, All,
  Bool-cases, inl, inr,
}
use vk.Memory.Heap.{
  Header, kheap_base_start, free_kvm_start, Kheap, header_at, kheap_get_size, kfree, kmalloc,
  krealloc,
}
use vk.Memory.Heap.Walk.{IsGood, live_at, not_bad}
use vk.Memory.Heap.Laws.{IsValid, live, Allocated, Allocates, Unfit, Frees, kfree-Frees}
use vk.Memory.Heap.Alloc.{kmalloc-Allocates}

-- The header of a reserved block.
record Headed (sz : ℕ) (r : Outcome Header) : Type 0 where
  head : Header
  found : r ≡ done head
  size : head.size ≡ sz
  good : IsGood head

header_at-Headed :
    (p i sz : ℕ) (bs : List Header)
    → All IsGood bs
    → live_at i bs p ≡ some sz
    → Headed sz (header_at p i bs)
unfolding header_at live_at
header_at-Headed p i sz [] g l = cc
header_at-Headed p i sz (b ∷ bs) g l = elim (Bool-cases (i + 8 == p)) [
  | inl e ↦ rw e (record { head = b; found = refl; size = ground arith; good = g.0 })
  | inr e ↦ rw e (header_at-Headed p (i + (b.size + 8)) sz bs g.1 (rw e at l))
]

-- In a valid heap `kheap_get_size` of a reserved block is its size.
pub kheap_get_size-live :
    (p sz : ℕ) (h : Kheap) → IsValid h → live h p ≡ some sz → kheap_get_size p h ≡ done sz
unfolding kheap_get_size
kheap_get_size-live p sz h v l =
    let a = header_at-Headed p kheap_base_start sz h.blocks v.good l in
    rw (a.found, not_bad a.head a.good, a.size)

-- The block at `p` has been exchanged for one of at least `n` bytes at `np`.
pub record Moved (n p sz : ℕ) (h : Kheap) (np : ℕ) (g : Kheap) : Type 0 where
  pub valid : IsValid g
  pub fresh : live h np ≡ none
  pub got : ℕ
  pub here : live g np ≡ some got
  pub enough : n ≤ got
  pub gone : live g p ≡ none
  pub keeps : (q size : ℕ) → q ≢ p → live h q ≡ some size → live g q ≡ some size

abbrev pub Moves : ℕ → ℕ → ℕ → Kheap → Outcome (ℕ × Kheap) → Type 0
Moves n p sz h (done (np, g)) = Moved n p sz h np g
Moves n p sz h (fatal e) = Unfit n h × (e ≡ heap_full)
Moves n p sz h wild = ⊥
Moves n p sz h no_fuel = ⊥

Frees-Moves :
    (n p sz np : ℕ) (h g : Kheap) (r : Outcome Kheap)
    → live h p ≡ some sz
    → Allocated n h np g
    → Frees p g r
    → Moves n p sz h (r >>= λ g'. done (np, g'))
Frees-Moves n p sz np h g (done g') l a f = record {
  valid = f.valid;
  fresh = a.fresh;
  got = a.got;
  here = ground (arith, f.others np, a.here, a.fresh, l);
  enough = a.enough;
  gone = ground (arith, f.others p);
  keeps = λ q size ne k. ground (arith, f.others q, a.keeps q size k);
}
Frees-Moves n p sz np h g (fatal e) l a f = elim f [ ]
Frees-Moves n p sz np h g wild l a f = elim f [ ]
Frees-Moves n p sz np h g no_fuel l a f = elim f [ ]

Allocates-Moves :
    (n p sz : ℕ) (h : Kheap) (r : Outcome (ℕ × Kheap))
    → live h p ≡ some sz
    → Allocates n h r
    → Moves n p sz h (r >>= λ (np, g). kfree p g >>= λ g'. done (np, g'))
Allocates-Moves n p sz h (done (np, g)) l a =
    Frees-Moves n p sz np h g (kfree p g) l a (kfree-Frees p sz g a.valid (a.keeps p sz l))
Allocates-Moves n p sz h (fatal e) l a = a
Allocates-Moves n p sz h wild l a = elim a [ ]
Allocates-Moves n p sz h no_fuel l a = elim a [ ]

module _ (map_memory : ℕ → ℕ → ℕ → Kheap → Outcome Kheap) (page_dirs : List ℕ) where
  -- In a valid heap, with at least one round, where a free block holds the new size rounded up to 4
  -- or the heap has reached its limit, whatever `map_memory` does: `krealloc` of a reserved block to
  -- a size that is not smaller, below 2^32, reserves a fresh block with at least the rounded size,
  -- frees the old one, and keeps every other reserved block and the heap valid; it stops the machine,
  -- with the message that the heap is full, only if no free block holds the size.
  pub krealloc-Moves :
      (rounds p sz newsize : ℕ) (h : Kheap)
      → IsValid h
      → live h p ≡ some sz
      → sz ≤ newsize
      → newsize < 2 ^ 32
      → (Unfit ((newsize + 3) / 4 * 4 % 2 ^ 32) h → free_kvm_start ≤ h.base_end)
      → Moves
          ((newsize + 3) / 4 * 4 % 2 ^ 32)
          p
          sz
          h
          (krealloc map_memory page_dirs (suc rounds) p newsize h)
  unfolding krealloc
  krealloc-Moves rounds p sz newsize h v l le small room =
      let a = header_at-Headed p kheap_base_start sz h.blocks v.good l in
      let stays : ltb newsize a.head.size ≡ false = ground (arith, a.size) in
      rw (a.found, stays)
        (Allocates-Moves ((newsize + 3) / 4 * 4 % 2 ^ 32) p sz h
          (kmalloc map_memory page_dirs (suc rounds) newsize h) l
          (kmalloc-Allocates map_memory page_dirs rounds newsize h v small room))

  -- Asked for less than the block has, `krealloc` stops the machine.
  pub krealloc-less :
      (rounds p sz newsize : ℕ) (h : Kheap)
      → IsValid h
      → live h p ≡ some sz
      → newsize < sz
      → krealloc map_memory page_dirs rounds p newsize h ≡ fatal realloc_less
  unfolding krealloc
  krealloc-less rounds p sz newsize h v l lt =
      let a = header_at-Headed p kheap_base_start sz h.blocks v.good l in
      let less : ltb newsize a.head.size ≡ true = ground (arith, a.size) in rw (a.found, less)
