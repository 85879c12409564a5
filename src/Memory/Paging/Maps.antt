-- ===== src/Memory/Paging/Maps.antt =====
-- What `map_page` does to the entries of all pages of an address space.
use vk.Prelude.{
  ℕ, ◌+◌, ◌*◌, ◌/◌, ◌%◌, ◌^◌, ◌<◌, ◌≡◌, ◌≢◌, ◌⊎◌, refl, sym, ap, ◌∙◌, inl, inr, Bool, true, false,
  not, All, if◌then◌else◌, ◌==◌, Bool-cases, ==→eq, ==→ne, u32_at, put_u32, Outcome, done, fatal,
  wild, no_fuel, page_heap_full, not_aligned, table_mapped, page_mapped, ◌>>=◌, arith,
}
use vk.Memory.PageHeap.{PageHeap}
use vk.Memory.Paging.{
  pd_index, pt_index, directory_entry, is_large, page_address, flags, get_table, map_page,
}
use vk.Memory.Paging.Entries.{
  IsTable, IsSpace, pte, pte-table, written-IsSpace, written-directory, written-pte,
}
use vk.Memory.Paging.Tables.{Gets, Uses, get_table-Gets}

-- What `map_page` comes to. Done, it has entered the page and no other, which had no entry.
abbrev pub Maps : Bool → PageHeap → ℕ → ℕ → ℕ → Outcome PageHeap → Type 0
Maps kernel h phys virt pd (done h') =
    IsSpace h' pd
    × (phys % 4096 ≡ 0)
    × (virt % 4096 ≡ 0)
    × (pte h pd (virt / 4096) ≡ 0)
    × ((n : ℕ)
        → n < 2 ^ 20
        → pte h' pd n ≡ (if n == virt / 4096 then phys + flags kernel else pte h pd n))
    × Uses h h' pd
Maps kernel h phys virt pd (fatal e) =
    ((e ≡ not_aligned) × ((phys % 4096 ≢ 0) ⊎ (virt % 4096 ≢ 0)))
    ⊎ ((e ≡ table_mapped)
        × (directory_entry h pd (pd_index virt) ≢ 0)
        × (is_large (directory_entry h pd (pd_index virt)) ≡ true))
    ⊎ ((e ≡ page_mapped) × (pte h pd (virt / 4096) ≢ 0))
    ⊎ ((e ≡ page_heap_full)
        × (directory_entry h pd (pd_index virt) ≡ 0)
        × All (λ b. b ≢ 0) h.blocks)
Maps kernel h phys virt pd wild = ⊥
Maps kernel h phys virt pd no_fuel = ⊥

-- The last step of `map_page`.
abbrev enter : Bool → ℕ → ℕ → ℕ × PageHeap → Outcome PageHeap
enter kernel phys virt (page_table, h') =
    let page = page_address page_table (pt_index virt) in
    if not (u32_at h'.memory page == 0)
    then fatal page_mapped
    else done (record h' { memory = put_u32 h'.memory page (phys + flags kernel) })

pub flags-small : (kernel : Bool) → flags kernel < 4096
flags-small true = omega arith
flags-small false = omega arith

pub pte-at :
    (h : PageHeap) (pd virt : ℕ)
    → virt < 2 ^ 32
    → IsTable (directory_entry h pd (pd_index virt))
    → pte h pd (virt / 4096)
      ≡ u32_at h.memory (page_address (directory_entry h pd (pd_index virt)) (pt_index virt))
pte-at h pd virt low t =
    let q : virt / 4096 / 1024 ≡ pd_index virt = omega arith in
    pte-table h pd (virt / 4096) (rw q t)
    ∙ ap (λ j. u32_at h.memory (page_address (directory_entry h pd j) (pt_index virt))) q

enter-Maps :
    (kernel : Bool) (h : PageHeap) (phys virt pd : ℕ) (r : Outcome (ℕ × PageHeap))
    → phys < 2 ^ 32
    → virt < 2 ^ 32
    → phys % 4096 ≡ 0
    → virt % 4096 ≡ 0
    → Gets h pd (pd_index virt) r
    → Maps kernel h phys virt pd (r >>= enter kernel phys virt)
enter-Maps kernel h phys virt pd (done (t, h')) small low pa va g =
    let i = pd_index virt in
    let k = pt_index virt in
    let a = page_address (directory_entry h' pd i) k in
    let v = phys + flags kernel in
    let word : pte h pd (virt / 4096) ≡ u32_at h'.memory a =
      sym (g.kept (virt / 4096) (omega arith)) ∙ pte-at h' pd virt low g.is_table in
    elim (Bool-cases (u32_at h'.memory a == 0)) [
      | inl free ↦
          rw (g.same_page k (omega arith), free)
            (
              written-IsSpace h' pd i k v g.space (omega arith) (omega arith) g.is_table,
              pa,
              va,
              word ∙ ==→eq (u32_at h'.memory a) 0 free,
              λ n lt.
                  written-pte h' pd i k v g.space (omega arith) (omega arith) g.is_table n
                    (omega (arith, flags-small kernel)) lt
                  ∙ number n
                  ∙ ap (λ x. if n == virt / 4096 then v else x) (g.kept n lt),
              (
                λ j lt large. g.uses.0 j lt (
                    rw
                      (written-directory h' pd i k v g.space (omega arith) (omega arith) g.is_table
                        j lt)
                      at large),
                g.uses.1,
              ),
            )
      | inr used ↦
          rw (g.same_page k (omega arith), used)
            (inr (inr (inl (refl, λ z. ==→ne (u32_at h'.memory a) 0 used (sym word ∙ z)))))
    ]
  where
    number :
        (n : ℕ)
        → (if n == 1024 * pd_index virt + pt_index virt then phys + flags kernel else pte h' pd n)
          ≡ (if n == virt / 4096 then phys + flags kernel else pte h' pd n)
    number n =
        let e : 1024 * pd_index virt + pt_index virt ≡ virt / 4096 = omega arith in
        ap (λ x. if n == x then phys + flags kernel else pte h' pd n) e
enter-Maps kernel h phys virt pd (fatal e) small low pa va (inl g) = inr (inl g)
enter-Maps kernel h phys virt pd (fatal e) small low pa va (inr g) = inr (inr (inr g))
enter-Maps kernel h phys virt pd wild small low pa va g = elim g [ ]
enter-Maps kernel h phys virt pd no_fuel small low pa va g = elim g [ ]

-- In a well-formed address space `map_page` of a physical and a virtual address below 2 ^ 32 stops the
-- machine only if one of them is not at the beginning of a page, if the virtual one lies in a page
-- of 4 MiB, if its page has an entry, or if a table is needed and the page heap is full; else both
-- are at the beginning of a page, the page had no entry, and `map_page` enters the physical address
-- for it, changes the entry of no other page of the whole address space, leaves the space well
-- formed, makes no entry of the directory one of a page of 4 MiB, and takes at most one page of the
-- page heap.
pub map_page-Maps :
    (kernel : Bool) (h : PageHeap) (phys virt pd : ℕ)
    → IsSpace h pd
    → phys < 2 ^ 32
    → virt < 2 ^ 32
    → Maps kernel h phys virt pd (map_page kernel phys virt pd h)
unfolding map_page
map_page-Maps kernel h phys virt pd s small low = elim (Bool-cases (phys % 4096 == 0)) [
  | inr odd ↦ rw odd (inl (refl, inl (==→ne (phys % 4096) 0 odd)))
  | inl pa ↦ elim (Bool-cases (virt % 4096 == 0)) [
    | inr odd ↦ rw (pa, odd) (inl (refl, inr (==→ne (virt % 4096) 0 odd)))
    | inl va ↦
        rw (pa, va)
          (enter-Maps kernel h phys virt pd (get_table kernel pd (pd_index virt) h) small low
            (==→eq (phys % 4096) 0 pa) (==→eq (virt % 4096) 0 va)
            (get_table-Gets kernel h pd (pd_index virt) s (omega arith)))
  ]
]
