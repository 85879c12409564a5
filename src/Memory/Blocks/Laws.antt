-- ===== src/Memory/Blocks/Laws.antt =====
-- Splitting and merging keep a run of blocks without gaps and without free neighbours, and the
-- used blocks.
use vk.Prelude.{
  ℕ, ◌+◌, ◌≤◌, ◌≡◌, refl, Bool, true, false, ◌&&◌, List, [], ◌∷◌, ◌++◌, if◌then◌else◌, ◌==◌, arith,
  Bool-cases, inl, inr,
}
use vk.Memory.Blocks.{Block, unwind}

-- The blocks fill the addresses from `a` up to `e`, each beginning where the one before it ends.
abbrev pub Tiles : ℕ → List Block → ℕ → Type 0
Tiles a [] e = a ≡ e
Tiles a (b ∷ bs) e = (b.base ≡ a) × Tiles (a + b.size) bs e

-- The same for blocks in the opposite order, going down from `a` to `s`.
abbrev pub TilesDown : ℕ → List Block → ℕ → Type 0
TilesDown s [] a = s ≡ a
TilesDown s (m ∷ ms) a = (m.base + m.size ≡ a) × TilesDown s ms m.base

-- No free block follows a free one; `p` says whether the block before the first is free.
abbrev pub Coalesced : ℕ → Bool → List Block → Type 0
Coalesced free p [] = Unit {0}
Coalesced free p (b ∷ bs) = ((p && (b.kind == free)) ≡ false) × Coalesced free (b.kind == free) bs

-- The blocks that are not free, in order.
abbrev pub used : ℕ → List Block → List Block
used free [] = []
used free (b ∷ bs) = if b.kind == free then used free bs else b ∷ used free bs

pub Tiles-le : (a : ℕ) (bs : List Block) (e : ℕ) → Tiles a bs e → a ≤ e
Tiles-le a [] e t = omega arith
Tiles-le a (b ∷ bs) e t = omega (arith, Tiles-le (a + b.size) bs e t.1)

pub unwind-Tiles :
    (s a e : ℕ) (before after : List Block)
    → TilesDown s before a
    → Tiles a after e
    → Tiles s (unwind before after) e
unwind-Tiles s a e [] after d t = rw d t
unwind-Tiles s a e (m ∷ ms) after d t = unwind-Tiles s m.base e ms (m ∷ after) d.1 (refl, rw d.0 t)

pub unwind-Coalesced :
    (free : ℕ) (c : Block) (before after : List Block)
    → Coalesced free (c.kind == free) before
    → Coalesced free (c.kind == free) after
    → Coalesced free false (unwind before (c ∷ after))
unwind-Coalesced free c [] after d t = (refl, t)
unwind-Coalesced free c (m ∷ ms) after d t =
    unwind-Coalesced free m ms (c ∷ after) d.1 (ground arith, t)

-- A run that may begin with a free block goes behind a block that is not free.
pub unwind-Coalesced_of_free :
    (free : ℕ) (before after : List Block)
    → Coalesced free true before
    → Coalesced free false after
    → Coalesced free false (unwind before after)
unwind-Coalesced_of_free free [] after d t = t
unwind-Coalesced_of_free free (m ∷ ms) after d t = unwind-Coalesced free m ms after d.1 (rw d.0 t)

pub used-unwind :
    (free : ℕ) (before after : List Block)
    → used free (unwind before after) ≡ unwind (used free before) (used free after)
used-unwind free [] after = refl
used-unwind free (m ∷ ms) after = elim (Bool-cases (m.kind == free)) [
  | inl e ↦ rw (used-unwind free ms (m ∷ after), e)
  | inr e ↦ rw (used-unwind free ms (m ∷ after), e)
]

pub used-append :
    (free : ℕ) (xs ys : List Block) → used free (xs ++ ys) ≡ used free xs ++ used free ys
used-append free [] ys = refl
used-append free (x ∷ xs) ys = elim (Bool-cases (x.kind == free)) [
  | inl e ↦ rw (e, used-append free xs ys)
  | inr e ↦ rw (e, used-append free xs ys)
]
