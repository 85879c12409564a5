-- ===== src/Memory/Heap/Laws.antt =====
-- What a caller of `kmalloc`, `kfree` and `krealloc` can rely on.
use vk.Prelude.{
  ℕ, ◌+◌, ◌%◌, ◌≤◌, ◌≡◌, refl, ◌∙◌, false, Option, none, some, List, ◌&&◌, if◌then◌else◌, ◌==◌, leb,
  Outcome, done, fatal, wild, no_fuel, heap_full, ◌>>=◌, arith, All,
}
use vk.Memory.Heap.{
  Header, kheap_base_start, expansion, free_kvm_start, Kheap, kheap_install, merge_free_blocks,
  clear_status, kfree,
}
use vk.Memory.Heap.Walk.{total, IsGood, live_at}
use vk.Memory.Heap.Merge.{
  Separate, Merges, merge_free_blocks-Merges, Cleared, Clears, clear_status-Clears,
}

-- The headers fill the heap, which ends at a multiple of 4 MiB, at most at FREE_KVM_START.
pub record IsValid (h : Kheap) : Type 0 where
  pub span : kheap_base_start + total h.blocks ≡ h.base_end
  pub good : All IsGood h.blocks
  pub limit : h.base_end ≤ free_kvm_start
  pub chunks : h.base_end % expansion ≡ 0

-- The size of the reserved block at `q`.
abbrev pub live : Kheap → ℕ → Option ℕ
live h q = live_at kheap_base_start h.blocks q

pub kheap_install-IsValid : IsValid kheap_install
unfolding kheap_install
kheap_install-IsValid = record {
  span = refl;
  good = (record { magic = refl; words = refl }, tt);
  limit = omega arith;
  chunks = refl;
}

pub record Freed (p : ℕ) (h g : Kheap) : Type 0 where
  pub valid : IsValid g
  pub separate : Separate false g.blocks
  pub others : (q : ℕ) → live g q ≡ (if p == q then none else live h q)

abbrev pub Frees : ℕ → Kheap → Outcome Kheap → Type 0
Frees p h (done g) = Freed p h g
Frees p h (fatal e) = ⊥
Frees p h wild = ⊥
Frees p h no_fuel = ⊥

Merges-Frees :
    (p : ℕ) (h : Kheap) (bs : List Header) (r : Outcome (List Header))
    → IsValid h
    → Cleared p kheap_base_start h.blocks bs
    → Merges kheap_base_start bs r
    → Frees p h (r >>= λ xs. done (record h { blocks = xs }))
Merges-Frees p h bs (done xs) v c m = record {
  valid = record {
    span = omega (arith, v.span, m.same_total, c.same_total);
    good = m.good;
    limit = v.limit;
    chunks = v.chunks;
  };
  separate = m.separate;
  others = λ q. m.same q ∙ c.others q;
}
Merges-Frees p h bs (fatal e) v c m = elim m [ ]
Merges-Frees p h bs wild v c m = elim m [ ]
Merges-Frees p h bs no_fuel v c m = elim m [ ]

Clears-Frees :
    (p : ℕ) (h : Kheap) (r : Outcome (List Header))
    → IsValid h
    → Clears p kheap_base_start h.blocks r
    → Frees p h (r >>= λ bs. merge_free_blocks bs >>= λ xs. done (record h { blocks = xs }))
Clears-Frees p h (done bs) v c =
    Merges-Frees p h bs (merge_free_blocks bs) v c
      (merge_free_blocks-Merges kheap_base_start bs c.good)
Clears-Frees p h (fatal e) v c = elim c [ ]
Clears-Frees p h wild v c = elim c [ ]
Clears-Frees p h no_fuel v c = elim c [ ]

-- In a valid heap `kfree` of a reserved block succeeds: the block, and no other, is no longer
-- reserved, the heap is valid, and no two free blocks are neighbours.
pub kfree-Frees : (p sz : ℕ) (h : Kheap) → IsValid h → live h p ≡ some sz → Frees p h (kfree p h)
unfolding kfree
kfree-Frees p sz h v l =
    Clears-Frees p h (clear_status p kheap_base_start h.blocks) v
      (clear_status-Clears p kheap_base_start sz h.blocks v.good l)

-- What is reserved stays reserved.
abbrev pub Keeps : Kheap → Kheap → Type 0
Keeps h g = (q sz : ℕ) → live h q ≡ some sz → live g q ≡ some sz

-- At least `n` bytes at `p` that were not reserved are reserved, inside the heap, and all that was
-- reserved still is.
pub record Allocated (n : ℕ) (h : Kheap) (p : ℕ) (g : Kheap) : Type 0 where
  pub valid : IsValid g
  pub aligned : p % 4 ≡ 0
  pub fresh : live h p ≡ none
  pub got : ℕ
  pub here : live g p ≡ some got
  pub enough : n ≤ got
  pub above : kheap_base_start + 8 ≤ p
  pub inside : p + got ≤ g.base_end
  pub keeps : Keeps h g
  pub same_end : g.base_end ≡ h.base_end

abbrev pub Unfit : ℕ → Kheap → Type 0
Unfit n h = All (λ b. ((b.status == 0) && leb n b.size) ≡ false) h.blocks

abbrev pub Allocates : ℕ → Kheap → Outcome (ℕ × Kheap) → Type 0
Allocates n h (done (p, g)) = Allocated n h p g
Allocates n h (fatal e) = Unfit n h × (e ≡ heap_full)
Allocates n h wild = ⊥
Allocates n h no_fuel = ⊥
