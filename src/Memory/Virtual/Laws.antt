-- ===== src/Memory/Virtual/Laws.antt =====
-- What a caller of the heap of virtual addresses can rely on.
use vk.Prelude.{
  ℕ, refl, Bool, true, not, ◌||◌, List, [], ◌∷◌, ◌==◌, ltb, ==→eq, ==→ne, inl, inr, Bool-cases,
  arith, align_up, no_virtual, no_block,
}
use vk.Memory.Blocks.{Block}
use vk.Memory.Blocks.Contract
use vk.Memory.Blocks.Contract.{
  Reserves, Finds, Finds-here, Finds-skip, Finds-Reserves, Frees, FindsAt, FindsAt-here,
  FindsAt-skip, FindsAt-Frees,
}
use vk.Memory.Virtual.{
  free_kvm_start, kvm_end, kvmheap_install, reserve_from, kvm_reserve_block, free_from,
  kvm_free_block,
}

abbrev pub IsValid : List Block → Type 0
IsValid = Contract.IsValid 0 free_kvm_start kvm_end

abbrev pub fits : ℕ → Block → Bool
fits n b = not (not (b.kind == 0) || ltb b.size n)

-- Every block may be freed.
abbrev pub any : Block → Bool
any b = true

reserve_from-Finds :
    (n : ℕ) (bs : List Block) → Finds (fits n) 0 1 no_virtual n bs (reserve_from n bs)
unfolding reserve_from
reserve_from-Finds n [] = (refl, tt)
reserve_from-Finds n (b ∷ bs) = elim (Bool-cases (not (b.kind == 0) || ltb b.size n)) [
  | inl e ↦ rw e (
      Finds-skip (fits n) 0 1 no_virtual n b bs (reserve_from n bs) (rw e refl)
        (reserve_from-Finds n bs))
  | inr e ↦ rw e (Finds-here (fits n) 0 1 no_virtual n b bs (rw e refl))
]

-- On a valid list `kvm_reserve_block` reserves `size` rounded up to pages in the first free block
-- that is large enough, and leaves a valid list with the other reserved blocks as they were; it
-- stops the machine exactly when no free block is large enough.
pub kvm_reserve_block-Reserves :
    (size : ℕ) (bs : List Block)
    → IsValid bs
    → let n = align_up size 4096 in
      Reserves (fits n) 0 1 no_virtual free_kvm_start kvm_end n bs (kvm_reserve_block size bs)
unfolding kvm_reserve_block
kvm_reserve_block-Reserves size bs v =
    let n = align_up size 4096 in
    Finds-Reserves (fits n) 0 1 no_virtual free_kvm_start kvm_end n bs (reserve_from n bs) v
      (omega arith) refl (λ b h. (ground arith, ground arith)) (reserve_from-Finds n bs)

pub kvmheap_install-IsValid : IsValid kvmheap_install
unfolding kvmheap_install
kvmheap_install-IsValid = record { tiles = (refl, refl); apart = (refl, tt) }

free_from-FindsAt :
    (a : ℕ) (prev bs : List Block) → FindsAt any 0 no_block a prev bs (free_from a prev bs)
unfolding free_from
free_from-FindsAt a prev [] = inl (refl, tt)
free_from-FindsAt a prev (b ∷ bs) = elim (Bool-cases (b.base == a)) [
  | inl e ↦ rw e (FindsAt-here any 0 no_block a prev b bs (==→eq b.base a e))
  | inr e ↦ rw e (
      FindsAt-skip any 0 no_block a prev b bs (free_from a (b ∷ prev) bs) (==→ne b.base a e)
        (free_from-FindsAt a (b ∷ prev) bs))
]

-- On a valid list `kvm_free_block` frees the first block at the address, merges it with its free
-- neighbours and leaves a valid list with the other reserved blocks as they were; it stops the
-- machine exactly when no block has the address.
pub kvm_free_block-Frees :
    (a : ℕ) (bs : List Block)
    → IsValid bs
    → Frees any 0 no_block free_kvm_start kvm_end a bs (kvm_free_block a bs)
unfolding kvm_free_block
kvm_free_block-Frees a bs v =
    FindsAt-Frees any 0 no_block free_kvm_start kvm_end a bs (free_from a [] bs) v (omega arith)
      (free_from-FindsAt a [] bs)
