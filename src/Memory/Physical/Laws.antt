-- ===== src/Memory/Physical/Laws.antt =====
-- What a caller of the physical allocator can rely on, for a memory map without holes.
use vk.Prelude.{
  ℕ, ◌+◌, ◌^◌, ◌≤◌, ◌<◌, ◌≡◌, refl, Bool, false, not, ◌&&◌, ◌||◌, List, [], ◌∷◌, ◌++◌, ◌==◌, ltb,
  leb, ==→eq, ==→ne, inl, inr, Bool-cases, arith, align_up, no_physical, not_freeable, fatal,
  not_present,
}
use vk.Memory.Blocks.{Block}
use vk.Memory.Blocks.Laws.{Tiles, Tiles-le}
use vk.Memory.Blocks.Contract.{
  IsValid, Reserves, Finds, Finds-here, Finds-skip, Finds-Reserves, Frees, FindsAt, FindsAt-here,
  FindsAt-barred, FindsAt-skip, FindsAt-Frees,
}
use vk.Memory.Physical.{
  free_block_type, kernelf_block_type, user_block_type, reserve_from, reserve_block, free_from,
  free_block, get_block,
}

abbrev pub fits : ℕ → Block → Bool
fits n b = (leb 0x100000 b.base && (b.kind == free_block_type)) && not (ltb b.size n)

abbrev pub freeable : Block → Bool
freeable b = (b.kind == kernelf_block_type) || (b.kind == user_block_type)

module _ (type : ℕ) where
  reserve_from-Finds :
      (n : ℕ) (bs : List Block) → Finds (fits n) 1 type no_physical n bs (reserve_from n type bs)
  unfolding reserve_from
  reserve_from-Finds n [] = (refl, tt)
  reserve_from-Finds n (b ∷ bs) =
      elim (Bool-cases (leb 0x100000 b.base && (b.kind == free_block_type))) [
        | inl e ↦ elim (Bool-cases (ltb b.size n)) [
          | inl small ↦
              rw (e, small)
                (Finds-skip (fits n) 1 type no_physical n b bs (reserve_from n type bs)
                  (rw (e, small) refl) (reserve_from-Finds n bs))
          | inr large ↦
              rw (e, large) (Finds-here (fits n) 1 type no_physical n b bs (rw (e, large) refl))
        ]
        | inr e ↦ rw e (
            Finds-skip (fits n) 1 type no_physical n b bs (reserve_from n type bs) (rw e refl)
              (reserve_from-Finds n bs))
      ]

  -- In a map without holes `reserve_block` reserves `size` rounded up to pages in the first free
  -- block from 1 MiB on that is large enough, marks it with the type, which is not that of free
  -- blocks, and leaves a valid map with the other reserved blocks as they were; it stops the
  -- machine exactly when there is no such block.
  pub reserve_block-Reserves :
      (size s e : ℕ) (bs : List Block)
      → IsValid 1 s e bs
      → e < 2 ^ 32
      → (type == 1) ≡ false
      → let n = align_up size 4096 in
        Reserves (fits n) 1 type no_physical s e n bs (reserve_block size type bs)
  unfolding reserve_block
  reserve_block-Reserves size s e bs v h ne =
      let n = align_up size 4096 in
      Finds-Reserves (fits n) 1 type no_physical s e n bs (reserve_from n type bs) v h ne
        (λ b f. (ground arith, ground arith)) (reserve_from-Finds n bs)

free_from-FindsAt :
    (a : ℕ) (prev bs : List Block) → FindsAt freeable 1 not_freeable a prev bs (free_from a prev bs)
unfolding free_from
free_from-FindsAt a prev [] = inl (refl, tt)
free_from-FindsAt a prev (b ∷ bs) = elim (Bool-cases (b.base == a)) [
  | inl e ↦ elim (Bool-cases (freeable b)) [
    | inl f ↦ rw (e, f) (FindsAt-here freeable 1 not_freeable a prev b bs (==→eq b.base a e))
    | inr f ↦ rw (e, f) (FindsAt-barred freeable 1 not_freeable a prev b bs (==→eq b.base a e) f)
  ]
  | inr e ↦ rw e (
      FindsAt-skip freeable 1 not_freeable a prev b bs (free_from a (b ∷ prev) bs)
        (==→ne b.base a e) (free_from-FindsAt a (b ∷ prev) bs))
]

-- In a map without holes `free_block` frees the first block at the address if its type is that of
-- kernel or user blocks that may be freed, merges it with its free neighbours and leaves a valid map
-- with the other reserved blocks as they were; it stops the machine exactly when no block has the
-- address, or the first that has it is of another type.
pub free_block-Frees :
    (a s e : ℕ) (bs : List Block)
    → IsValid 1 s e bs
    → e < 2 ^ 32
    → Frees freeable 1 not_freeable s e a bs (free_block a bs)
unfolding free_block
free_block-Frees a s e bs v h =
    FindsAt-Frees freeable 1 not_freeable s e a bs (free_from a [] bs) v h
      (free_from-FindsAt a [] bs)

-- No block that begins at or behind `a` has `a` inside.
get_block-behind :
    (a s e : ℕ) (bs : List Block) → Tiles s bs e → a ≤ s → get_block a bs ≡ fatal not_present
unfolding get_block
get_block-behind a s e [] t h = refl
get_block-behind a s e (b ∷ bs) t h = ground (arith, get_block-behind a (s + b.size) e bs t.1)

base_bounds :
    (xs : List Block) (b : Block) (ys : List Block) (s e : ℕ)
    → Tiles s (xs ++ (b ∷ ys)) e
    → (s ≤ b.base) × (b.base ≤ e)
base_bounds [] b ys s e t = (omega (arith, t.0), omega (arith, t.0, Tiles-le (s + b.size) ys e t.1))
base_bounds (x ∷ xs) b ys s e t =
    let h = base_bounds xs b ys (s + x.size) e t.1 in (omega (arith, h.0), h.1)

-- In a map without holes `get_block` stops the machine when it is asked for the address at which
-- some block begins.
pub get_block-base :
    (xs : List Block) (b : Block) (ys : List Block) (s e : ℕ)
    → Tiles s (xs ++ (b ∷ ys)) e
    → e < 2 ^ 32
    → get_block b.base (xs ++ (b ∷ ys)) ≡ fatal not_present
unfolding get_block
get_block-base [] b ys s e t h = get_block-behind b.base s e (b ∷ ys) t (omega (arith, t.0))
get_block-base (x ∷ xs) b ys s e t h =
    ground
      (arith, base_bounds xs b ys (s + x.size) e t.1, get_block-base xs b ys (s + x.size) e t.1 h)
