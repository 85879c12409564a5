-- ===== src/Memory/Heap/Walk.antt =====
-- The walk over the headers: what is reserved, and what each loop keeps of it.
use vk.Prelude.{
  ℕ, ◌+◌, ◌-◌, ◌%◌, ◌≤◌, ◌<◌, ◌≡◌, ◌≢◌, refl, false, Option, none, some, List, [], ◌∷◌, ◌&&◌,
  if◌then◌else◌, ◌==◌, leb, ltb, Outcome, done, fatal, wild, no_fuel, ◌>>=◌, arith, All, Bool-cases,
  inl, inr, ltb→lt,
}
use vk.Memory.Heap.{Header, block_header_magic, bad, carve, behind, find}

-- The bytes that the blocks take, headers included.
abbrev pub total : List Header → ℕ
total [] = 0
total (b ∷ bs) = b.size + 8 + total bs

-- A header that `kmalloc` wrote.
pub record IsGood (b : Header) : Type 0 where
  pub magic : b.magic ≡ block_header_magic
  pub words : b.size % 4 ≡ 0

-- The size of the reserved block whose bytes begin at `q`, if there is one.
unfoldable pub live_at : ℕ → List Header → ℕ → Option ℕ
live_at i [] q = none
live_at i (b ∷ bs) q =
    if i + 8 == q
    then (if b.status == 0 then none else some b.size)
    else live_at (i + (b.size + 8)) bs q

pub live_at-low : (i : ℕ) (bs : List Header) (q : ℕ) → q < i + 8 → live_at i bs q ≡ none
unfolding live_at
live_at-low i [] q h = refl
live_at-low i (b ∷ bs) q h = ground (arith, live_at-low (i + (b.size + 8)) bs q)

pub not_bad : (b : Header) → IsGood b → bad b ≡ false
not_bad b g = ground (arith, g.magic)

-- A block of at least `n` bytes at `p`, inside the walk, is newly reserved, and nothing else.
pub record Carved (n i : ℕ) (bs : List Header) (p : ℕ) (bs' : List Header) : Type 0 where
  pub same_total : total bs' ≡ total bs
  pub good : All IsGood bs'
  pub aligned : p % 4 ≡ 0
  pub fresh : live_at i bs p ≡ none
  pub got : ℕ
  pub here : live_at i bs' p ≡ some got
  pub enough : n ≤ got
  pub above : i + 8 ≤ p
  pub inside : p + got ≤ i + total bs
  pub others : (q : ℕ) → q ≢ p → live_at i bs' q ≡ live_at i bs q

carve-Carved :
    (n i : ℕ) (b : Header) (bs : List Header)
    → IsGood b
    → All IsGood bs
    → i % 4 ≡ 0
    → n % 4 ≡ 0
    → b.status ≡ 0
    → n ≤ b.size
    → Carved n i (b ∷ bs) (i + 8) (carve n b bs)
unfolding carve live_at
carve-Carved n i b bs g gs hi hn st room = elim (Bool-cases (ltb 8 (b.size - n))) [
  | inl big ↦ rw big (record {
    same_total = ground arith;
    good = (
      record { magic = g.magic; words = hn },
      (record { magic = refl; words = omega arith }, gs),
    );
    aligned = omega arith;
    fresh = ground arith;
    got = n;
    here = ground arith;
    enough = omega arith;
    above = omega arith;
    inside = omega arith;
    others = λ q ne.
        let e : i + (n + 8) + (b.size - n - 8 + 8) ≡ i + (b.size + 8) =
          omega (arith, ltb→lt 8 (b.size - n) big) in
        rw e (ground (arith, live_at-low (i + (b.size + 8)) bs q));
  })
  | inr small ↦ rw small (record {
    same_total = refl;
    good = (record { magic = g.magic; words = g.words }, gs);
    aligned = omega arith;
    fresh = ground arith;
    got = b.size;
    here = ground arith;
    enough = room;
    above = omega arith;
    inside = omega arith;
    others = λ q ne. ground arith;
  })
]

abbrev pub FindSpec : ℕ → ℕ → List Header → Outcome (Option (ℕ × List Header)) → Type 0
FindSpec n i bs (done none) = All (λ b. ((b.status == 0) && leb n b.size) ≡ false) bs
FindSpec n i bs (done (some (p, bs'))) = Carved n i bs p bs'
FindSpec n i bs (fatal h) = ⊥
FindSpec n i bs wild = ⊥
FindSpec n i bs no_fuel = ⊥

behind-FindSpec :
    (n i : ℕ) (b : Header) (bs : List Header) (r : Outcome (Option (ℕ × List Header)))
    → IsGood b
    → ((b.status == 0) && leb n b.size) ≡ false
    → FindSpec n (i + (b.size + 8)) bs r
    → FindSpec n i (b ∷ bs) (r >>= behind b)
unfolding live_at
behind-FindSpec n i b bs (done none) g miss f = (miss, f)
behind-FindSpec n i b bs (done (some (p, bs'))) g miss f = record {
  same_total = omega (arith, f.same_total);
  good = (g, f.good);
  aligned = f.aligned;
  fresh = ground (arith, f.fresh, f.above);
  got = f.got;
  here = ground (arith, f.here, f.above);
  enough = f.enough;
  above = omega (arith, f.above);
  inside = omega (arith, f.inside);
  others = λ q ne. ground (arith, f.others q ne);
}
behind-FindSpec n i b bs (fatal h) g miss f = elim f [ ]
behind-FindSpec n i b bs wild g miss f = elim f [ ]
behind-FindSpec n i b bs no_fuel g miss f = elim f [ ]

pub find-FindSpec :
    (n i : ℕ) (bs : List Header)
    → All IsGood bs
    → i % 4 ≡ 0
    → n % 4 ≡ 0
    → FindSpec n i bs (find n i bs)
unfolding find
find-FindSpec n i [] g hi hn = tt
find-FindSpec n i (b ∷ bs) g hi hn =
    rw (not_bad b g.0) (elim (Bool-cases ((b.status == 0) && leb n b.size)) [
      | inl fit ↦ rw fit (carve-Carved n i b bs g.0 g.1 hi hn (ground arith) (ground arith))
      | inr miss ↦ rw miss (
          behind-FindSpec n i b bs (find n (i + (b.size + 8)) bs) g.0 miss
            (find-FindSpec n (i + (b.size + 8)) bs g.1 (omega (arith, g.0.words)) hn))
    ])
