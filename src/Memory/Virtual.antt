-- ===== src/Memory/Virtual.antt =====
-- memory/kvmheap.c: the heap of kernel virtual addresses. A status of 0 marks a free block. What
-- `kmalloc` and `kfree` do to the list's own nodes is not part of the state.
pub mod Laws
pub mod Leak
mod Tests
use vk.Prelude.{
  ℕ, ◌-◌, List, [], ◌∷◌, ◌||◌, not, if◌then◌else◌, ◌==◌, ltb, align_up, Outcome, done, fatal,
  no_virtual, no_block, ◌>>=◌,
}
use vk.Memory.Blocks.{Block, block, split, release}

-- FREE_KVM_START (memory/mem.h)
abbrev pub free_kvm_start : ℕ
free_kvm_start = 0xE0800000

abbrev pub kvm_end : ℕ
kvm_end = 0xFFFFFFFF

pub kvmheap_install : List Block
kvmheap_install = block free_kvm_start (kvm_end - free_kvm_start) 0 ∷ []

reserve_from : ℕ → List Block → Outcome (ℕ × List Block)
reserve_from size [] = fatal no_virtual
reserve_from size (curr ∷ next) =
    let rest = reserve_from size next >>= λ (a, bs). done (a, curr ∷ bs) in
    if not (curr.kind == 0) || ltb curr.size size
    then rest
    else done (curr.base, split 0 size 1 curr next)

-- The address of the reserved block, and the list.
pub kvm_reserve_block : ℕ → List Block → Outcome (ℕ × List Block)
unfolding reserve_from
kvm_reserve_block size bs = reserve_from (align_up size 4096) bs

free_from : ℕ → List Block → List Block → Outcome (List Block)
free_from base_addr prev [] = fatal no_block
free_from base_addr prev (curr ∷ next) =
    let rest = free_from base_addr (curr ∷ prev) next in
    if curr.base == base_addr then done (release 0 prev curr next) else rest

pub kvm_free_block : ℕ → List Block → Outcome (List Block)
unfolding free_from
kvm_free_block base_addr bs = free_from base_addr [] bs
