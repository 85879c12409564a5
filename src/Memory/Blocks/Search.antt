-- ===== src/Memory/Blocks/Search.antt =====
-- What the searches of the two allocators find, and what the change at that place keeps.
use vk.Prelude.{
  ℕ, ◌+◌, ◌^◌, ◌<◌, ◌≤◌, ◌≡◌, refl, ◌∙◌, subst, Bool, true, false, ◌&&◌, List, [], ◌∷◌, ◌++◌, ◌==◌,
  arith, All, ◌≢◌, ==_refl,
}
use vk.Memory.Blocks.{Block, block, split, unwind, release}
use vk.Memory.Blocks.Laws.{Tiles, TilesDown, Coalesced, used, Tiles-le, used-append, used-unwind}
use vk.Memory.Blocks.Merge.{release_lem}

-- First fit: `b` is the first block that passes the test; it is split, and its address returned.
pub record FirstFit (fits : Block → Bool) (free n k : ℕ) (bs : List Block) (out : ℕ × List Block)
    : Type 0 where
  pub before : List Block
  pub found : Block
  pub after : List Block
  pub place : bs ≡ before ++ (found ∷ after)
  pub skipped : All (λ x. fits x ≡ false) before
  pub fit : fits found ≡ true
  pub address : out.0 ≡ found.base
  pub result : out.1 ≡ before ++ split free n k found after

-- The first block at the address `a` is released.
pub record FreedAt (free a : ℕ) (before bs out : List Block) : Type 0 where
  pub passed : List Block
  pub found : Block
  pub after : List Block
  pub place : bs ≡ passed ++ (found ∷ after)
  pub missed : All (λ x. x.base ≢ a) passed
  pub address : found.base ≡ a
  pub result : out ≡ release free (unwind passed before) found after

module _ (free n k : ℕ) where
  pub split-Tiles :
      (s : ℕ) (before : List Block) (b : Block) (after : List Block) (e : ℕ)
      → n ≤ b.size
      → e < 2 ^ 32
      → Tiles s (before ++ (b ∷ after)) e
      → Tiles s (before ++ split free n k b after) e
  unfolding split
  split-Tiles s [] b after e h l t =
      let le = Tiles-le (s + b.size) after e t.1 in
      (t.0, (omega (arith, t.0), subst (λ x. Tiles x after e) (omega arith) t.1))
  split-Tiles s (x ∷ xs) b after e h l t = (t.0, split-Tiles (s + x.size) xs b after e h l t.1)

  pub split-Coalesced :
      (p : Bool) (before : List Block) (b : Block) (after : List Block)
      → (b.kind == free) ≡ true
      → (k == free) ≡ false
      → Coalesced free p (before ++ (b ∷ after))
      → Coalesced free p (before ++ split free n k b after)
  unfolding split
  split-Coalesced p [] b after f u d = rw (u, ==_refl free) (ground arith, (refl, rw f at d.1))
  split-Coalesced p (x ∷ xs) b after f u d =
      (d.0, split-Coalesced (x.kind == free) xs b after f u d.1)

  pub used-split :
      (before : List Block) (b : Block) (after : List Block)
      → (k == free) ≡ false
      → used free (before ++ split free n k b after)
        ≡ used free before ++ (block b.base n k ∷ used free after)
  unfolding split
  used-split before b after u =
      rw (used-append free before (split free n k b after), split, u, ==_refl free) refl

-- The freeness of the first block.
abbrev first_free : ℕ → List Block → Bool
first_free free [] = false
first_free free (x ∷ xs) = x.kind == free

-- Where the search for a block to free stands: the blocks behind it, and those before it.
record Place (free s : ℕ) (before rest : List Block) (e : ℕ) : Type 0 where
  at : ℕ
  down : TilesDown s before at
  up : Tiles at rest e
  apart_down : Coalesced free (first_free free rest) before
  apart_up : Coalesced free (first_free free before) rest

clash :
    (free : ℕ) (x : Block) (rest : List Block)
    → Coalesced free (x.kind == free) rest
    → (first_free free rest && (x.kind == free)) ≡ false
clash free x [] d = refl
clash free x (y ∷ ys) d = ground arith

Place-step :
    (free s : ℕ) (before : List Block) (x : Block) (rest : List Block) (e : ℕ)
    → Place free s before (x ∷ rest) e
    → Place free s (x ∷ before) rest e
Place-step free s before x rest e p = record {
  at = p.at + x.size;
  down = (omega (arith, p.up.0), rw p.up.0 p.down);
  up = p.up.1;
  apart_down = (clash free x rest p.apart_up.1, p.apart_down);
  apart_up = p.apart_up.1;
}

Place-steps :
    (free s : ℕ) (before passed rest : List Block) (e : ℕ)
    → Place free s before (passed ++ rest) e
    → Place free s (unwind passed before) rest e
Place-steps free s before [] rest e p = p
Place-steps free s before (x ∷ xs) rest e p =
    Place-steps free s (x ∷ before) xs rest e (Place-step free s before x (xs ++ rest) e p)

unwind-unwind : (xs ys zs : List Block) → unwind (unwind xs ys) zs ≡ unwind ys (xs ++ zs)
unwind-unwind [] ys zs = refl
unwind-unwind (x ∷ xs) ys zs = unwind-unwind xs (x ∷ ys) zs

-- What a run of blocks is after a block is freed: without gaps and without free neighbours, and
-- with the used blocks that stood before and behind the freed one.
pub record Freed (free s a : ℕ) (bs : List Block) (e : ℕ) (out : List Block) : Type 0 where
  pub passed : List Block
  pub found : Block
  pub after : List Block
  pub place : bs ≡ passed ++ (found ∷ after)
  pub missed : All (λ x. x.base ≢ a) passed
  pub address : found.base ≡ a
  pub tiles : Tiles s out e
  pub apart : Coalesced free false out
  pub same : used free out ≡ used free passed ++ used free after

-- Releasing the block between `xs` and `ys`.
pub release_lem_at :
    (free s : ℕ) (xs : List Block) (b : Block) (ys : List Block) (e : ℕ)
    → Tiles s (xs ++ (b ∷ ys)) e
    → Coalesced free false (xs ++ (b ∷ ys))
    → e < 2 ^ 32
    → let out = release free (unwind xs []) b ys in
      Tiles s out e × Coalesced free false out × (used free out ≡ used free xs ++ used free ys)
release_lem_at free s xs b ys e t d h =
    let start : Place free s [] (xs ++ (b ∷ ys)) e = record {
      at = s;
      down = refl;
      up = t;
      apart_down = tt;
      apart_up = d;
    } in
    let p = Place-steps free s [] xs (b ∷ ys) e start in
    let r =
      release_lem free (b.kind == free) s (unwind xs []) b ys e (rw p.up.0 p.down)
        (refl, rw p.up.0 p.up.1) h p.apart_down p.apart_up.1 in
    (
      r.tiles,
      r.apart,
      r.same ∙ rw (used-unwind free xs []) (unwind-unwind (used free xs) [] (used free ys)),
    )

pub FreedAt-Freed :
    (free s a : ℕ) (bs : List Block) (e : ℕ) (out : List Block)
    → Tiles s bs e
    → Coalesced free false bs
    → e < 2 ^ 32
    → FreedAt free a [] bs out
    → Freed free s a bs e out
FreedAt-Freed free s a bs e out t d h f =
    let r =
      release_lem_at free s f.passed f.found f.after e (rw f.place at t) (rw f.place at d) h in
    record {
      passed = f.passed;
      found = f.found;
      after = f.after;
      place = f.place;
      missed = f.missed;
      address = f.address;
      tiles = rw f.result r.0;
      apart = rw f.result r.1;
      same = rw f.result r.2;
    }
