-- ===== src/Memory/Virtual/Leak.antt =====
-- A reservation that fits exactly leaves a free block of no bytes at the address of the block
-- behind it, and the search of `kvm_free_block` stops at that one.
use vk.Prelude.{ℕ, ◌≡◌, ◌≢◌, List, [], ◌∷◌, ◌++◌, arith, All, done, ==_refl, ne→==}
use vk.Memory.Blocks.{Block, block, unwind, release}
use vk.Memory.Blocks.Laws.{used}
use vk.Memory.Blocks.Search.{release_lem_at}
use vk.Memory.Virtual.{free_kvm_start, kvm_end, free_from, kvm_free_block}
use vk.Memory.Virtual.Laws.{IsValid}

free_from-release :
    (prev xs : List Block) (b : Block) (ys : List Block)
    → All (λ x. x.base ≢ b.base) xs
    → free_from b.base prev (xs ++ (b ∷ ys)) ≡ done (release 0 (unwind xs prev) b ys)
unfolding free_from
free_from-release prev [] b ys miss = rw (==_refl b.base)
free_from-release prev (x ∷ xs) b ys miss =
    rw (ne→== x.base b.base miss.0) (free_from-release (x ∷ prev) xs b ys miss.1)

-- In a valid list, freeing the address of a reserved block that lies right behind a free block of
-- no bytes reports success and frees nothing: the same blocks are reserved afterwards.
pub kvm_free_block-leak :
    (xs ys : List Block) (a n : ℕ)
    → All (λ x. x.base ≢ a) xs
    → IsValid (xs ++ (block a 0 0 ∷ block a n 1 ∷ ys))
    → (bs : List Block) × (kvm_free_block a (xs ++ (block a 0 0 ∷ block a n 1 ∷ ys)) ≡ done bs)
      × (used 0 bs ≡ used 0 xs ++ (block a n 1 ∷ used 0 ys))
unfolding kvm_free_block
kvm_free_block-leak xs ys a n miss v =
    let after : List Block = block a n 1 ∷ ys in
    let out = release 0 (unwind xs []) (block a 0 0) after in
    (
      out,
      free_from-release [] xs (block a 0 0) after miss,
      (release_lem_at 0 free_kvm_start xs (block a 0 0) after kvm_end v.tiles v.apart
          (omega arith)).2,
    )
