-- ===== src/Memory/Paging/Unmaps.antt =====
-- What `unmap_page` does to the entries of all pages.
use vk.Prelude.{
  ℕ, ◌+◌, ◌*◌, ◌/◌, ◌%◌, ◌^◌, ◌<◌, ◌≡◌, ◌≢◌, ◌⊎◌, refl, ap, ◌∙◌, inl, inr, true, if◌then◌else◌,
  ◌==◌, Bool-cases, ==→eq, ==→ne, u32_at, Outcome, done, fatal, wild, no_fuel, not_aligned,
  table_mapped, page_not_mapped, arith,
}
use vk.Memory.PageHeap.{PageHeap}
use vk.Memory.Paging.{pd_index, pt_index, directory_entry, is_large, page_address, unmap_page}
use vk.Memory.Paging.Entries.{IsTable, IsSpace, pte, pte-none, written-IsSpace, written-pte}
use vk.Memory.Paging.Maps.{pte-at}

-- What `unmap_page` comes to. Done, the page and no other has lost its entry.
abbrev pub Unmaps : PageHeap → ℕ → ℕ → Outcome PageHeap → Type 0
Unmaps h virt pd (done h') =
    IsSpace h' pd
    × (virt % 4096 ≡ 0)
    × ((n : ℕ) → n < 2 ^ 20 → pte h' pd n ≡ (if n == virt / 4096 then 0 else pte h pd n))
Unmaps h virt pd (fatal e) =
    ((e ≡ not_aligned) × (virt % 4096 ≢ 0))
    ⊎ ((e ≡ table_mapped)
        × (directory_entry h pd (pd_index virt) ≢ 0)
        × (is_large (directory_entry h pd (pd_index virt)) ≡ true))
    ⊎ ((e ≡ page_not_mapped)
        × IsTable (directory_entry h pd (pd_index virt))
        × (pte h pd (virt / 4096) ≡ 0))
Unmaps h virt pd wild = ⊥
Unmaps h virt pd no_fuel = ⊥

-- A page that has no entry keeps none.
keep-none :
    (h : PageHeap) (pd p : ℕ)
    → pte h pd p ≡ 0
    → (n : ℕ) → pte h pd n ≡ (if n == p then 0 else pte h pd n)
keep-none h pd p z n = elim (Bool-cases (n == p)) [
  | inl here ↦ rw here (ap (pte h pd) (==→eq n p here) ∙ z)
  | inr there ↦ rw there refl
]

-- In a well-formed address space `unmap_page` stops the machine only if the address is not at the
-- beginning of a page, if it lies in a page of 4 MiB, or if there is a table for it in which its
-- page has no entry; else it takes the entry of the page away, if there is one, changes that of no
-- other page, and leaves the space well formed.
pub unmap_page-Unmaps :
    (h : PageHeap) (virt pd : ℕ)
    → IsSpace h pd
    → virt < 2 ^ 32
    → Unmaps h virt pd (unmap_page virt pd h)
unfolding unmap_page
unmap_page-Unmaps h virt pd s low =
    let i = pd_index virt in
    let k = pt_index virt in
    let entry = directory_entry h pd i in
    let q : virt / 4096 / 1024 ≡ i = omega arith in
    elim (Bool-cases (virt % 4096 == 0)) [
      | inr odd ↦ rw odd (inl (refl, ==→ne (virt % 4096) 0 odd))
      | inl va ↦ elim (Bool-cases (entry == 0)) [
        | inl none ↦
            rw (va, none)
              (
                s,
                ==→eq (virt % 4096) 0 va,
                λ n lt.
                    keep-none h pd (virt / 4096)
                      (pte-none h pd (virt / 4096) (rw q (==→eq entry 0 none))) n,
              )
        | inr some_entry ↦ elim (Bool-cases (is_large entry)) [
          | inl large ↦
              rw (va, some_entry, large) (inr (inl (refl, ==→ne entry 0 some_entry, large)))
          | inr small ↦
              let t : IsTable entry = (==→ne entry 0 some_entry, small) in
              let word = pte-at h pd virt low t in
              elim (Bool-cases (u32_at h.memory (page_address entry k) == 0)) [
                | inl free ↦
                    rw (va, some_entry, small, free)
                      (inr (
                        inr
                          (refl, t, word ∙ ==→eq (u32_at h.memory (page_address entry k)) 0 free)))
                | inr used ↦
                    rw (va, some_entry, small, used)
                      (
                        written-IsSpace h pd i k 0 s (omega arith) (omega arith) t,
                        ==→eq (virt % 4096) 0 va,
                        λ n lt.
                            written-pte h pd i k 0 s (omega arith) (omega arith) t n (omega arith)
                              lt
                            ∙ number n,
                      )
              ]
        ]
      ]
    ]
  where
    number :
        (n : ℕ)
        → (if n == 1024 * pd_index virt + pt_index virt then 0 else pte h pd n)
          ≡ (if n == virt / 4096 then 0 else pte h pd n)
    number n =
        let e : 1024 * pd_index virt + pt_index virt ≡ virt / 4096 = omega arith in
        ap (λ x. if n == x then 0 else pte h pd n) e

pub pte-large :
    (h : PageHeap) (pd virt : ℕ)
    → virt < 2 ^ 32
    → is_large (directory_entry h pd (pd_index virt)) ≡ true
    → pte h pd (virt / 4096) ≡ 0
unfolding pte
pte-large h pd virt low large =
    let q : virt / 4096 / 1024 ≡ pd_index virt = omega arith in
    elim (Bool-cases (directory_entry h pd (pd_index virt) == 0)) [
      | inl none ↦ rw (q, none) refl
      | inr some_entry ↦ rw (q, some_entry, large) refl
    ]
