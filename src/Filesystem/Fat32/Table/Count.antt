-- ===== src/Filesystem/Fat32/Table/Count.antt =====
-- The free clusters, and the search for the next of them.
use vk.Prelude.{
  ℕ, ◌+◌, ◌≤◌, ◌<◌, ◌≡◌, ◌≢◌, refl, sym, ap, ◌∙◌, zero, suc, false, if◌then◌else◌, ◌==◌, ltb,
  lt→ltb, ==→eq, ==→ne, Bool-cases, inl, inr, poke, Outcome, done, fatal, wild, no_fuel, arith,
}
use vk.Filesystem.Fat32.Table.{Table, next, with_entry, find_free}

-- How many of the `k` clusters from `a` on are free.
unfoldable pub count_free : Table → ℕ → ℕ → ℕ
count_free t a zero = 0
count_free t a (suc k) = (if next t a == 0 then 1 else 0) + count_free t (a + 1) k

pub count_free-write :
    (t : Table) (q v a k : ℕ) → q < a → count_free (with_entry t q v) a k ≡ count_free t a k
unfolding count_free
count_free-write t q v a zero lt = refl
count_free-write t q v a (suc k) lt =
    let e : poke t.entry q v a ≡ t.entry a = ground arith in
    let ih = count_free-write t q v (a + 1) k (omega arith) in rw (e, ih) refl

-- The search from `a` on, with `k` clusters left, found `c`, the first free cluster, or no cluster is free.
abbrev pub Finds : Table → ℕ → ℕ → Outcome ℕ → Type 0
Finds t a k (done c) =
    (left : ℕ) × (a ≤ c)
    × (c + 1 + left ≡ t.size)
    × (next t c ≡ 0)
    × (count_free t a k ≡ 1 + count_free t (c + 1) left)
    × ((q : ℕ) → a ≤ q → q < c → next t q ≢ 0)
Finds t a k wild = count_free t a k ≡ 0
Finds t a k (fatal h) = ⊥
Finds t a k no_fuel = ⊥

Finds-skip :
    (t : Table) (a k : ℕ) (r : Outcome ℕ) → next t a ≢ 0 → Finds t (a + 1) k r → Finds t a (suc k) r
unfolding count_free
Finds-skip t a k (done c) ne (left, le, e, free, n, used) =
    let b : (next t a == 0) ≡ false = ground (arith, ne) in
    (left, omega (arith, le), e, free, rw b (omega (arith, n)), λ q from lt. skipped q from lt)
  where
    skipped : (q : ℕ) → a ≤ q → q < c → next t q ≢ 0
    skipped q from lt = elim (Bool-cases (q == a)) [
      | inl here ↦ λ z. ne (ap (next t) (sym (==→eq q a here)) ∙ z)
      | inr other ↦ let apart = ==→ne q a other in used q (omega (arith, from, apart)) lt
    ]
Finds-skip t a k wild ne n =
    let b : (next t a == 0) ≡ false = ground (arith, ne) in rw b (omega (arith, n))
Finds-skip t a k (fatal h) ne f = elim f [ ]
Finds-skip t a k no_fuel ne f = elim f [ ]

pub find_free-Finds :
    (rounds : ℕ) (t : Table) (a k : ℕ)
    → a + k ≡ t.size
    → k < rounds
    → Finds t a k (find_free rounds t a)
unfolding find_free count_free
find_free-Finds zero t a k e lt = absurd (omega arith)
find_free-Finds (suc rounds) t a zero e lt =
    let out : ltb a t.size ≡ false = ground arith in rw out refl
find_free-Finds (suc rounds) t a (suc k) e lt =
    let inside = lt→ltb a t.size (omega arith) in
    elim (Bool-cases (next t a == 0)) [
      | inl z ↦
          rw (inside, z)
            (
              k,
              omega arith,
              omega arith,
              ==→eq (next t a) 0 z,
              rw z refl,
              λ q from lt. absurd (omega (arith, from, lt)),
            )
      | inr ne ↦
          rw (inside, ne)
            (Finds-skip t a k (find_free rounds t (a + 1)) (==→ne (next t a) 0 ne)
              (find_free-Finds rounds t (a + 1) k (omega arith) (omega arith)))
    ]
