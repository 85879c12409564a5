-- ===== src/Memory/Heap/Merge.antt =====
-- `merge_free_blocks` and the release of a block.
use vk.Prelude.{
  ℕ, ◌+◌, ◌≡◌, refl, ◌∙◌, Bool, true, false, Option, none, some, List, [], ◌∷◌, ◌&&◌, if◌then◌else◌,
  ◌==◌, Outcome, done, fatal, wild, no_fuel, ◌>>=◌, arith, All, Bool-cases, inl, inr, ==→eq,
}
use vk.Memory.Heap.{Header, merge_from, merge_free_blocks, clear_status}
use vk.Memory.Heap.Walk.{total, IsGood, live_at, live_at-low, not_bad}

-- No free block follows a free one; `p` says whether the block before the first is free.
abbrev pub Separate : Bool → List Header → Type 0
Separate p [] = Unit {0}
Separate p (b ∷ bs) = ((p && (b.status == 0)) ≡ false) × Separate (b.status == 0) bs

pub record Merged (i : ℕ) (bs xs : List Header) : Type 0 where
  pub same_total : total xs ≡ total bs
  pub good : All IsGood xs
  pub separate : Separate false xs
  pub same : (q : ℕ) → live_at i xs q ≡ live_at i bs q

abbrev pub Merges : ℕ → List Header → Outcome (List Header) → Type 0
Merges i bs (done xs) = Merged i bs xs
Merges i bs (fatal h) = ⊥
Merges i bs wild = ⊥
Merges i bs no_fuel = ⊥

-- A reserved block in front, ...
Merges-used :
    (i : ℕ) (b : Header) (bs : List Header) (r : Outcome (List Header))
    → IsGood b
    → (b.status == 0) ≡ false
    → Merges (i + (b.size + 8)) bs r
    → Merges i (b ∷ bs) (r >>= λ xs. done (b ∷ xs))
unfolding live_at
Merges-used i b bs (done xs) g u m = record {
  same_total = omega (arith, m.same_total);
  good = (g, m.good);
  separate = (refl, rw u m.separate);
  same = λ q. ground (arith, m.same q);
}
Merges-used i b bs (fatal h) g u m = elim m [ ]
Merges-used i b bs wild g u m = elim m [ ]
Merges-used i b bs no_fuel g u m = elim m [ ]

-- ... behind a free one.
Merges-free_used :
    (i : ℕ) (c b : Header) (bs : List Header) (r : Outcome (List Header))
    → IsGood c
    → IsGood b
    → (c.status == 0) ≡ true
    → (b.status == 0) ≡ false
    → Merges (i + (c.size + 8) + (b.size + 8)) bs r
    → Merges i (c ∷ b ∷ bs) (r >>= λ xs. done (c ∷ b ∷ xs))
unfolding live_at
Merges-free_used i c b bs (done xs) k g f u m = record {
  same_total = omega (arith, m.same_total);
  good = (k, (g, m.good));
  separate = (refl, (ground arith, rw u m.separate));
  same = λ q. ground (arith, m.same q);
}
Merges-free_used i c b bs (fatal h) k g f u m = elim m [ ]
Merges-free_used i c b bs wild k g f u m = elim m [ ]
Merges-free_used i c b bs no_fuel k g f u m = elim m [ ]

-- Two free blocks read as one that takes the bytes of both.
absorb :
    (i : ℕ) (c b : Header) (bs : List Header) (r : Outcome (List Header))
    → (c.status == 0) ≡ true
    → (b.status == 0) ≡ true
    → Merges i (record c { size = c.size + (b.size + 8) } ∷ bs) r
    → Merges i (c ∷ b ∷ bs) r
unfolding live_at
absorb i c b bs (done xs) f u m = record {
  same_total = omega (arith, m.same_total);
  good = m.good;
  separate = m.separate;
  same = λ q.
      let e : i + (c.size + (b.size + 8) + 8) ≡ i + (c.size + 8) + (b.size + 8) = omega arith in
      m.same q ∙ rw (e, f, u) (ground (arith, live_at-low (i + (c.size + 8) + (b.size + 8)) bs q));
}
absorb i c b bs (fatal h) f u m = elim m [ ]
absorb i c b bs wild f u m = elim m [ ]
absorb i c b bs no_fuel f u m = elim m [ ]

abbrev start : Option Header → List Header → List Header
start none bs = bs
start (some c) bs = c ∷ bs

abbrev IsFree : Option Header → Type 0
IsFree none = Unit {0}
IsFree (some c) = IsGood c × ((c.status == 0) ≡ true)

merge_from-Merges :
    (i : ℕ) (o : Option Header) (bs : List Header)
    → IsFree o
    → All IsGood bs
    → Merges i (start o bs) (merge_from o bs)
unfolding merge_from
merge_from-Merges i none [] f g = record {
  same_total = refl;
  good = tt;
  separate = tt;
  same = λ q. refl;
}
merge_from-Merges i (some c) [] f g = record {
  same_total = refl;
  good = (f.0, tt);
  separate = (refl, tt);
  same = λ q. refl;
}
merge_from-Merges i none (b ∷ bs) f g = rw (not_bad b g.0) (elim (Bool-cases (b.status == 0)) [
  | inl e ↦ rw e (merge_from-Merges i (some b) bs (g.0, e) g.1)
  | inr e ↦ rw e (
      Merges-used i b bs (merge_from none bs) g.0 e
        (merge_from-Merges (i + (b.size + 8)) none bs tt g.1))
])
merge_from-Merges i (some c) (b ∷ bs) f g = rw (not_bad b g.0) (elim (Bool-cases (b.status == 0)) [
  | inl e ↦ rw e (
      absorb i c b bs (merge_from (some (record c { size = c.size + (b.size + 8) })) bs) f.1 e (
        merge_from-Merges i (some (record c { size = c.size + (b.size + 8) })) bs
          (record { magic = f.0.magic; words = omega (arith, f.0.words, g.0.words) }, f.1) g.1))
  | inr e ↦ rw e (
      Merges-free_used i c b bs (merge_from none bs) f.0 g.0 f.1 e
        (merge_from-Merges (i + (c.size + 8) + (b.size + 8)) none bs tt g.1))
])

-- `merge_free_blocks` on headers that `kmalloc` wrote: no two free blocks are neighbours
-- afterwards, and the walk meets the same reserved blocks.
pub merge_free_blocks-Merges :
    (i : ℕ) (bs : List Header) → All IsGood bs → Merges i bs (merge_free_blocks bs)
unfolding merge_free_blocks
merge_free_blocks-Merges i bs g = merge_from-Merges i none bs tt g

-- The block behind `p`, and it alone, is no longer reserved.
pub record Cleared (p i : ℕ) (bs bs' : List Header) : Type 0 where
  pub same_total : total bs' ≡ total bs
  pub good : All IsGood bs'
  pub others : (q : ℕ) → live_at i bs' q ≡ (if p == q then none else live_at i bs q)

abbrev pub Clears : ℕ → ℕ → List Header → Outcome (List Header) → Type 0
Clears p i bs (done xs) = Cleared p i bs xs
Clears p i bs (fatal h) = ⊥
Clears p i bs wild = ⊥
Clears p i bs no_fuel = ⊥

Clears-skip :
    (p i : ℕ) (b : Header) (bs : List Header) (r : Outcome (List Header))
    → IsGood b
    → (i + 8 == p) ≡ false
    → Clears p (i + (b.size + 8)) bs r
    → Clears p i (b ∷ bs) (r >>= λ xs. done (b ∷ xs))
unfolding live_at
Clears-skip p i b bs (done xs) g miss c = record {
  same_total = omega (arith, c.same_total);
  good = (g, c.good);
  others = λ q. ground (arith, c.others q);
}
Clears-skip p i b bs (fatal h) g miss c = elim c [ ]
Clears-skip p i b bs wild g miss c = elim c [ ]
Clears-skip p i b bs no_fuel g miss c = elim c [ ]

pub clear_status-Clears :
    (p i sz : ℕ) (bs : List Header)
    → All IsGood bs
    → live_at i bs p ≡ some sz
    → Clears p i bs (clear_status p i bs)
unfolding clear_status live_at
clear_status-Clears p i sz [] g l = cc
clear_status-Clears p i sz (b ∷ bs) g l = elim (Bool-cases (i + 8 == p)) [
  | inl e ↦
      rw (e, not_bad b g.0)
        (record {
          same_total = refl;
          good = (record { magic = g.0.magic; words = g.0.words }, g.1);
          others = λ q. ground (arith, ==→eq (i + 8) p e, live_at-low (i + (b.size + 8)) bs q);
        })
  | inr e ↦ rw e (
      Clears-skip p i b bs (clear_status p (i + (b.size + 8)) bs) g.0 e
        (clear_status-Clears p (i + (b.size + 8)) sz bs g.1 (rw e at l)))
]
