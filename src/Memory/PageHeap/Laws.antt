-- ===== src/Memory/PageHeap/Laws.antt =====
-- What a caller of the page heap can rely on.
use vk.Prelude.{
  ℕ, zero, if◌then◌else◌, suc, ◌+◌, ◌-◌, ◌/◌, ◌%◌, ◌^◌, ◌≤◌, ◌<◌, ◌≡◌, ◌≢◌, refl, ap, List, [], ◌∷◌,
  some, ◌==◌, lt→ltb, length, set, get_elem?, All, Outcome, done, fatal, wild, no_fuel,
  page_heap_full, ◌>>=◌, arith, Bool-cases, inl, inr, ==→eq, ==→ne,
}
use vk.Memory.PageHeap.{
  PageHeap, kpheap_virt_base, kpheap_block_size, page, clear, take_free, pt_alloc, pt_free,
}

-- How many pages of the heap are free.
unfoldable pub free_pages : List ℕ → ℕ
free_pages [] = 0
free_pages (b ∷ bs) = (if b == 0 then 1 else 0) + free_pages bs

pub free_pages-none : (bs : List ℕ) → All (λ b. b ≢ 0) bs → free_pages bs ≡ 0
unfolding free_pages
free_pages-none [] h = refl
free_pages-none (b ∷ bs) h = ground (arith, h.0, free_pages-none bs h.1)

pub free_pages-set : (bs : List ℕ) (k v : ℕ) → free_pages bs ≤ suc (free_pages (set bs k v))
unfolding free_pages
free_pages-set [] k v = omega arith
free_pages-set (b ∷ bs) zero v = ground arith
free_pages-set (b ∷ bs) (suc k) v = omega (arith, free_pages-set bs k v)

-- The first free page of `bs` is the one at `k`, now marked.
record Took (i : ℕ) (bs : List ℕ) (j : ℕ) (bs' : List ℕ) : Type 0 where
  at : ℕ
  index : j ≡ i + at
  inside : at < length bs
  was : get_elem? bs at ≡ some 0
  marked : bs' ≡ set bs at 1
  back : set bs' at 0 ≡ bs
  same_length : length bs' ≡ length bs

abbrev Takes : ℕ → List ℕ → Outcome (ℕ × List ℕ) → Type 0
Takes i bs (done (j, bs')) = Took i bs j bs'
Takes i bs (fatal h) = (h ≡ page_heap_full) × All (λ b. b ≢ 0) bs
Takes i bs wild = ⊥
Takes i bs no_fuel = ⊥

Takes-skip :
    (i b : ℕ) (bs : List ℕ) (r : Outcome (ℕ × List ℕ))
    → b ≢ 0
    → Takes (i + 1) bs r
    → Takes i (b ∷ bs) (r >>= λ (j, xs). done (j, b ∷ xs))
Takes-skip i b bs (done (j, xs)) ne t = record {
  at = suc t.at;
  index = omega (arith, t.index);
  inside = omega (arith, t.inside);
  was = t.was;
  marked = ap (λ x. b ∷ x) t.marked;
  back = ap (λ x. b ∷ x) t.back;
  same_length = omega (arith, t.same_length);
}
Takes-skip i b bs (fatal h) ne t = (t.0, (ne, t.1))
Takes-skip i b bs wild ne t = elim t [ ]
Takes-skip i b bs no_fuel ne t = elim t [ ]

take_free-Takes : (i : ℕ) (bs : List ℕ) → Takes i bs (take_free i bs)
unfolding take_free
take_free-Takes i [] = (refl, tt)
take_free-Takes i (b ∷ bs) = elim (Bool-cases (b == 0)) [
  | inl e ↦
      let z = ==→eq b 0 e in
      rw e (record {
        at = 0;
        index = omega arith;
        inside = omega arith;
        was = ap some z;
        marked = refl;
        back = rw z refl;
        same_length = refl;
      })
  | inr e ↦
      rw e (Takes-skip i b bs (take_free (i + 1) bs) (==→ne b 0 e) (take_free-Takes (i + 1) bs))
]

-- Of a heap of 1024 marks.
pub record Allocated (h : PageHeap) (a : ℕ) (g : PageHeap) : Type 0 where
  pub index : ℕ
  pub inside : index < 1024
  pub address : a ≡ page index
  pub was_free : get_elem? h.blocks index ≡ some 0
  pub marked : g.blocks ≡ set h.blocks index 1
  pub cleared : (x : ℕ) → a ≤ x → x < a + 4096 → g.memory x ≡ 0
  pub before : (x : ℕ) → x < a → g.memory x ≡ h.memory x
  pub behind : (x : ℕ) → a + 4096 ≤ x → g.memory x ≡ h.memory x
  pub undone : pt_free a g ≡ done (record g { blocks = h.blocks })

abbrev pub Allocates : PageHeap → Outcome (ℕ × PageHeap) → Type 0
Allocates h (done (a, g)) = Allocated h a g
Allocates h (fatal e) = (e ≡ page_heap_full) × All (λ b. b ≢ 0) h.blocks
Allocates h wild = ⊥
Allocates h no_fuel = ⊥

Takes-Allocates :
    (h : PageHeap) (r : Outcome (ℕ × List ℕ))
    → length h.blocks ≡ 1024
    → Takes 0 h.blocks r
    → Allocates h (
        r >>= λ (i, bs).
        done (page i, record h { blocks = bs; memory = clear h.memory (page i) kpheap_block_size }))
unfolding pt_free
Takes-Allocates h (done (i, bs)) n t =
    let same : i ≡ t.at = omega (arith, t.index) in
    let index : (page i + 2 ^ 32 - kpheap_virt_base) % 2 ^ 32 / kpheap_block_size ≡ t.at =
      omega (arith, same, t.inside) in
    record {
      index = t.at;
      inside = omega (arith, t.inside);
      address = ap page same;
      was_free = t.was;
      marked = t.marked;
      cleared = λ x lo hi. ground arith;
      before = λ x lt. ground arith;
      behind = λ x le. ground arith;
      undone = rw (index, lt→ltb t.at (length bs) (omega (arith, t.inside, t.same_length)), t.back);
    }
Takes-Allocates h (fatal e) n t = t
Takes-Allocates h wild n t = elim t [ ]
Takes-Allocates h no_fuel n t = elim t [ ]

-- With 1024 marks `pt_alloc` marks the first free page, clears its 4096 bytes and no other, and
-- returns its address, of which `pt_free` takes the mark back; it stops the machine exactly when
-- every page is marked.
pub pt_alloc-Allocates : (h : PageHeap) → length h.blocks ≡ 1024 → Allocates h (pt_alloc h)
unfolding pt_alloc
pt_alloc-Allocates h n = Takes-Allocates h (take_free 0 h.blocks) n (take_free-Takes 0 h.blocks)
