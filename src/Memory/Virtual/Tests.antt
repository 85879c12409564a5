-- ===== src/Memory/Virtual/Tests.antt =====
-- The list after the installation, after reservations, and with a free block of no bytes.
use vk.Prelude.{◌≡◌, refl, List, [], ◌∷◌, align_up, done, no_virtual, no_block}
use vk.Memory.Blocks.{Block, block, split, release}
use vk.Memory.Blocks.Contract.{Reserves, Frees}
use vk.Memory.Virtual.{free_kvm_start, kvm_end, kvmheap_install, kvm_reserve_block, kvm_free_block}
use vk.Memory.Virtual.Laws.{IsValid, fits, any, kvm_reserve_block-Reserves, kvm_free_block-Frees}

abbrev two_pages : List Block
two_pages = block 0xE0800000 8192 1 ∷ block 0xE0802000 0x1F7FDFFF 0 ∷ []

two_pages-IsValid : IsValid two_pages
two_pages-IsValid = record { tiles = (refl, (refl, refl)); apart = (refl, (refl, tt)) }

first_reservation : kvm_reserve_block 5000 kvmheap_install ≡ done (0xE0800000, two_pages)
unfolding kvm_reserve_block kvmheap_install split align_up
first_reservation = refl

freed_again : kvm_free_block 0xE0800000 two_pages ≡ done kvmheap_install
unfolding kvm_free_block kvmheap_install release
freed_again = refl

-- A page, a free block of no bytes, and a page.
abbrev exact : List Block
exact =
    block 0xE0800000 4096 1
    ∷ block 0xE0801000 0 0
    ∷ block 0xE0801000 4096 1
    ∷ block 0xE0802000 0x1F7FDFFF 0
    ∷ []

exact-IsValid : IsValid exact
exact-IsValid = record {
  tiles = (refl, (refl, (refl, (refl, refl))));
  apart = (refl, (refl, (refl, (refl, tt))));
}

kvm_reserve_block-Reserves_example :
    let n = align_up 5000 4096 in
    Reserves
      (fits n)
      0
      1
      no_virtual
      free_kvm_start
      kvm_end
      n
      two_pages
      (kvm_reserve_block 5000 two_pages)
kvm_reserve_block-Reserves_example = kvm_reserve_block-Reserves 5000 two_pages two_pages-IsValid

kvm_free_block-Frees_example :
    Frees any 0 no_block free_kvm_start kvm_end 0xE0800000 two_pages
      (kvm_free_block 0xE0800000 two_pages)
kvm_free_block-Frees_example = kvm_free_block-Frees 0xE0800000 two_pages two_pages-IsValid
