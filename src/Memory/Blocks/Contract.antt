-- ===== src/Memory/Blocks/Contract.antt =====
-- What the two allocators promise of a run of blocks, for the status that means free, the ends of
-- the run, the test of the search and the reason of a refusal that they pass.
use vk.Prelude.{
  ℕ, ◌^◌, ◌≤◌, ◌<◌, ◌≡◌, ◌≢◌, refl, ◌∙◌, ap, Bool, true, false, List, [], ◌∷◌, ◌++◌, ◌==◌, ◌⊎◌, inl,
  inr, All, Outcome, done, fatal, wild, no_fuel, Halt, no_block, ◌>>=◌,
}
use vk.Memory.Blocks.{Block, block, split, release}
use vk.Memory.Blocks.Laws.{Tiles, Coalesced, used, used-append}
use vk.Memory.Blocks.Search.{
  FirstFit, FreedAt, Freed, split-Tiles, split-Coalesced, used-split, FreedAt-Freed,
}

-- The blocks fill the region from `s` to `e`, and no free block follows a free one.
pub record IsValid (free s e : ℕ) (bs : List Block) : Type 0 where
  pub tiles : Tiles s bs e
  pub apart : Coalesced free false bs

-- `n` bytes at `a` are now reserved with status `k`, where a block that passes `fits` was, and the
-- reserved blocks before and behind it are the old ones.
pub record Took (fits : Block → Bool) (free k s e n : ℕ) (bs : List Block) (a : ℕ)
    (bs' : List Block) : Type 0 where
  pub valid : IsValid free s e bs'
  pub before : List Block
  pub after : List Block
  pub old : used free bs ≡ before ++ after
  pub new : used free bs' ≡ before ++ (block a n k ∷ after)
  pub first : FirstFit fits free n k bs (a, bs')

module _ (fits : Block → Bool) (free k : ℕ) (full : Halt) where
  abbrev pub Reserves : ℕ → ℕ → ℕ → List Block → Outcome (ℕ × List Block) → Type 0
  Reserves s e n bs (done (a, bs')) = Took fits free k s e n bs a bs'
  Reserves s e n bs (fatal h) = (h ≡ full) × All (λ b. fits b ≡ false) bs
  Reserves s e n bs wild = ⊥
  Reserves s e n bs no_fuel = ⊥

  abbrev pub Finds : ℕ → List Block → Outcome (ℕ × List Block) → Type 0
  Finds n bs (done out) = FirstFit fits free n k bs out
  Finds n bs (fatal h) = (h ≡ full) × All (λ b. fits b ≡ false) bs
  Finds n bs wild = ⊥
  Finds n bs no_fuel = ⊥

  pub Finds-here :
      (n : ℕ) (b : Block) (bs : List Block)
      → fits b ≡ true
      → Finds n (b ∷ bs) (done (b.base, split free n k b bs))
  Finds-here n b bs h = record {
    before = [];
    found = b;
    after = bs;
    place = refl;
    skipped = tt;
    fit = h;
    address = refl;
    result = refl;
  }

  pub Finds-skip :
      (n : ℕ) (b : Block) (bs : List Block) (r : Outcome (ℕ × List Block))
      → fits b ≡ false
      → Finds n bs r
      → Finds n (b ∷ bs) (r >>= λ (a, xs). done (a, b ∷ xs))
  Finds-skip n b bs (done out) miss f = record {
    before = b ∷ f.before;
    found = f.found;
    after = f.after;
    place = ap (λ xs. b ∷ xs) f.place;
    skipped = (miss, f.skipped);
    fit = f.fit;
    address = f.address;
    result = ap (λ xs. b ∷ xs) f.result;
  }
  Finds-skip n b bs (fatal h) miss f = (f.0, (miss, f.1))
  Finds-skip n b bs wild miss f = elim f [ ]
  Finds-skip n b bs no_fuel miss f = elim f [ ]

  pub Finds-Reserves :
      (s e n : ℕ) (bs : List Block) (r : Outcome (ℕ × List Block))
      → IsValid free s e bs
      → e < 2 ^ 32
      → (k == free) ≡ false
      → ((b : Block) → fits b ≡ true → ((b.kind == free) ≡ true) × (n ≤ b.size))
      → Finds n bs r
      → Reserves s e n bs r
  Finds-Reserves s e n bs (done (a, bs')) v h ne good f =
      let (is_free, room) = good f.found f.fit in
      let t = split-Tiles free n k s f.before f.found f.after e room h (rw f.place at v.tiles) in
      let d =
        split-Coalesced free n k false f.before f.found f.after is_free ne
          (rw f.place at v.apart) in
      record {
        valid = record { tiles = rw f.result t; apart = rw f.result d };
        before = used free f.before;
        after = used free f.after;
        old = rw f.place (used-append free f.before (f.found ∷ f.after) ∙ rw is_free refl);
        new = rw (f.result, f.address) (used-split free n k f.before f.found f.after ne);
        first = f;
      }
  Finds-Reserves s e n bs (fatal h) v l ne good f = f
  Finds-Reserves s e n bs wild v l ne good f = elim f [ ]
  Finds-Reserves s e n bs no_fuel v l ne good f = elim f [ ]

-- The first block at `a` may not be freed.
pub record Refused (may : Block → Bool) (a : ℕ) (bs : List Block) : Type 0 where
  pub passed : List Block
  pub found : Block
  pub after : List Block
  pub place : bs ≡ passed ++ (found ∷ after)
  pub missed : All (λ x. x.base ≢ a) passed
  pub address : found.base ≡ a
  pub barred : may found ≡ false

module _ (may : Block → Bool) (free : ℕ) (barred : Halt) where
  abbrev pub Frees : ℕ → ℕ → ℕ → List Block → Outcome (List Block) → Type 0
  Frees s e a bs (done bs') = Freed free s a bs e bs'
  Frees s e a bs (fatal h) =
      (h ≡ no_block) × All (λ b. b.base ≢ a) bs ⊎ (h ≡ barred) × Refused may a bs
  Frees s e a bs wild = ⊥
  Frees s e a bs no_fuel = ⊥

  abbrev pub FindsAt : ℕ → List Block → List Block → Outcome (List Block) → Type 0
  FindsAt a prev bs (done out) = FreedAt free a prev bs out
  FindsAt a prev bs (fatal h) =
      (h ≡ no_block) × All (λ b. b.base ≢ a) bs ⊎ (h ≡ barred) × Refused may a bs
  FindsAt a prev bs wild = ⊥
  FindsAt a prev bs no_fuel = ⊥

  pub FindsAt-here :
      (a : ℕ) (prev : List Block) (b : Block) (bs : List Block)
      → b.base ≡ a
      → FindsAt a prev (b ∷ bs) (done (release free prev b bs))
  FindsAt-here a prev b bs h = record {
    passed = [];
    found = b;
    after = bs;
    place = refl;
    missed = tt;
    address = h;
    result = refl;
  }

  pub FindsAt-barred :
      (a : ℕ) (prev : List Block) (b : Block) (bs : List Block)
      → b.base ≡ a
      → may b ≡ false
      → FindsAt a prev (b ∷ bs) (fatal barred)
  FindsAt-barred a prev b bs h n = inr (
    refl,
    record {
      passed = [];
      found = b;
      after = bs;
      place = refl;
      missed = tt;
      address = h;
      barred = n;
    },
  )

  pub FindsAt-skip :
      (a : ℕ) (prev : List Block) (b : Block) (bs : List Block) (r : Outcome (List Block))
      → b.base ≢ a
      → FindsAt a (b ∷ prev) bs r
      → FindsAt a prev (b ∷ bs) r
  FindsAt-skip a prev b bs (done out) miss f = record {
    passed = b ∷ f.passed;
    found = f.found;
    after = f.after;
    place = ap (λ xs. b ∷ xs) f.place;
    missed = (miss, f.missed);
    address = f.address;
    result = f.result;
  }
  FindsAt-skip a prev b bs (fatal h) miss (inl f) = inl (f.0, (miss, f.1))
  FindsAt-skip a prev b bs (fatal h) miss (inr f) = inr (
    f.0,
    record {
      passed = b ∷ f.1.passed;
      found = f.1.found;
      after = f.1.after;
      place = ap (λ xs. b ∷ xs) f.1.place;
      missed = (miss, f.1.missed);
      address = f.1.address;
      barred = f.1.barred;
    },
  )
  FindsAt-skip a prev b bs wild miss f = elim f [ ]
  FindsAt-skip a prev b bs no_fuel miss f = elim f [ ]

  pub FindsAt-Frees :
      (s e a : ℕ) (bs : List Block) (r : Outcome (List Block))
      → IsValid free s e bs
      → e < 2 ^ 32
      → FindsAt a [] bs r
      → Frees s e a bs r
  FindsAt-Frees s e a bs (done out) v h f = FreedAt-Freed free s a bs e out v.tiles v.apart h f
  FindsAt-Frees s e a bs (fatal h) v l f = f
  FindsAt-Frees s e a bs wild v l f = elim f [ ]
  FindsAt-Frees s e a bs no_fuel v l f = elim f [ ]
