-- ===== src/Memory/Paging/Removal.antt =====
-- What the removal of a range of pages does, and that it undoes `map_flexible`.
use vk.Prelude.{
  ℕ, zero, suc, ◌+◌, ◌-◌, ◌*◌, ◌/◌, ◌%◌, ◌^◌, ◌≤◌, ◌<◌, ◌≡◌, ◌≢◌, ◌⊎◌, refl, sym, subst, ◌∙◌, inl,
  inr, Bool, false, if◌then◌else◌, ◌==◌, leb, ltb, ◌&&◌, Bool-cases, ==→eq, ==→ne, ne→==, Outcome,
  done, fatal, wild, no_fuel, ◌>>=◌, arith,
}
use vk.Memory.PageHeap.{PageHeap}
use vk.Memory.Paging.{unmap_page, unmap_pages, unmap_flexible, map_flexible, page_start, page_size}
use vk.Memory.Paging.Entries.{IsSpace, pte}
use vk.Memory.Paging.Unmaps.{Unmaps, unmap_page-Unmaps, pte-large}
use vk.Memory.Paging.Ranges.{MapsRange, map_flexible-MapsRange, page_size-whole, flags-some}

-- The pages from `p` on, `k` of them, have lost their entries, and no other page has.
abbrev pub Removes : PageHeap → ℕ → ℕ → ℕ → Outcome PageHeap → Type 0
Removes h p k pd r =
    (h' : PageHeap) × (r ≡ done h')
    × IsSpace h' pd
    × ((n : ℕ) → p ≤ n → n < p + k → pte h' pd n ≡ 0)
    × ((n : ℕ) → n < 2 ^ 20 → (n < p) ⊎ (p + k ≤ n) → pte h' pd n ≡ pte h pd n)

either :
    (n p x : ℕ)
    → (n ≡ p) × ((if n == p then 0 else x) ≡ 0) ⊎ (n ≢ p) × ((if n == p then 0 else x) ≡ x)
either n p x = elim (Bool-cases (n == p)) [
  | inl here ↦ inl (==→eq n p here, rw here refl)
  | inr there ↦ inr (==→ne n p there, rw there refl)
]

-- The entry of a page that has one is taken away.
removed :
    (h : PageHeap) (virt pd : ℕ) (r : Outcome PageHeap)
    → virt < 2 ^ 32
    → virt % 4096 ≡ 0
    → pte h pd (virt / 4096) ≢ 0
    → Unmaps h virt pd r
    → (h' : PageHeap) × (r ≡ done h')
      × IsSpace h' pd
      × ((n : ℕ) → n < 2 ^ 20 → pte h' pd n ≡ (if n == virt / 4096 then 0 else pte h pd n))
removed h virt pd (done h') low va some_entry u = (h', refl, u.0, u.2)
removed h virt pd (fatal e) low va some_entry u = elim u [
  | inl odd ↦ absurd (odd.1 va)
  | inr (inl large) ↦ absurd (some_entry (pte-large h pd virt low large.2))
  | inr (inr none) ↦ absurd (some_entry none.2)
]
removed h virt pd wild low va some_entry u = elim u [ ]
removed h virt pd no_fuel low va some_entry u = elim u [ ]

Removes-cons :
    (h h1 : PageHeap) (p k pd : ℕ) (r : Outcome PageHeap)
    → p + suc k ≤ 2 ^ 20
    → ((n : ℕ) → n < 2 ^ 20 → pte h1 pd n ≡ (if n == p then 0 else pte h pd n))
    → Removes h1 (p + 1) k pd r
    → Removes h p (suc k) pd r
Removes-cons h h1 p k pd r inside after (h', e, space, gone, kept) = (
  h',
  e,
  space,
  λ n le lt. elim (either n p (pte h pd n)) [
    | inl (here, zero_entry) ↦
        kept n (omega (arith, lt, inside)) (inl (omega (arith, here)))
        ∙ after n (omega (arith, lt, inside))
        ∙ zero_entry
    | inr (there, same) ↦ gone n (omega (arith, le, there)) (omega (arith, lt))
  ],
  λ n lt out. elim (either n p (pte h pd n)) [
    | inl (here, zero_entry) ↦ absurd (elim out [
      | inl before ↦ omega (arith, before, here)
      | inr behind ↦ omega (arith, behind, here)
    ])
    | inr (there, same) ↦ kept n lt (beyond n out) ∙ after n lt ∙ same
  ],
)
  where
    beyond : (n : ℕ) → (n < p) ⊎ (p + suc k ≤ n) → (n < p + 1) ⊎ (p + 1 + k ≤ n)
    beyond n (inl before) = inl (omega (arith, before))
    beyond n (inr behind) = inr (omega (arith, behind))

-- The first page of a range and the loop over the others.
first_removed :
    (h : PageHeap) (virt k pd : ℕ) (rest : PageHeap → Outcome PageHeap) (r : Outcome PageHeap)
    → virt + 4096 * suc k ≤ 2 ^ 32
    → virt % 4096 ≡ 0
    → pte h pd (virt / 4096) ≢ 0
    → ((h1 : PageHeap)
        → IsSpace h1 pd
        → ((n : ℕ) → n < 2 ^ 20 → pte h1 pd n ≡ (if n == virt / 4096 then 0 else pte h pd n))
        → Removes h1 (virt / 4096 + 1) k pd (rest h1))
    → Unmaps h virt pd r
    → Removes h (virt / 4096) (suc k) pd (r >>= rest)
first_removed h virt k pd rest r vin va some_entry ih u =
    let (h1, e, s1, after) = removed h virt pd r (omega (arith, vin)) va some_entry u in
    subst (λ x. Removes h (virt / 4096) (suc k) pd (x >>= rest)) (sym e)
      (Removes-cons h h1 (virt / 4096) k pd (rest h1) (omega (arith, vin)) after (ih h1 s1 after))

later :
    (h h1 : PageHeap) (p k pd : ℕ)
    → p + suc k ≤ 2 ^ 20
    → ((n : ℕ) → p ≤ n → n < p + suc k → pte h pd n ≢ 0)
    → ((n : ℕ) → n < 2 ^ 20 → pte h1 pd n ≡ (if n == p then 0 else pte h pd n))
    → (n : ℕ) → p + 1 ≤ n
    → n < p + 1 + k
    → pte h1 pd n ≢ 0
later h h1 p k pd inside entries after n le lt z = elim (either n p (pte h pd n)) [
  | inl (here, zero_entry) ↦ omega (arith, here, le)
  | inr (there, same) ↦
      entries n (omega (arith, le)) (omega (arith, lt))
        (sym same ∙ sym (after n (omega (arith, lt, inside))) ∙ z)
]

-- The loop over `k` pages that have entries.
unmap_pages-Removes :
    (h : PageHeap) (rounds virt k add pd : ℕ)
    → IsSpace h pd
    → (virt + add) % 4096 ≡ 0
    → virt + add + 4096 * k ≤ 2 ^ 32
    → k < rounds
    → ((n : ℕ) → (virt + add) / 4096 ≤ n → n < (virt + add) / 4096 + k → pte h pd n ≢ 0)
    → Removes h ((virt + add) / 4096) k pd (unmap_pages rounds virt (4096 * k) add pd h)
unfolding unmap_pages
unmap_pages-Removes h zero virt k add pd s va vin enough entries = absurd (omega (arith, enough))
unmap_pages-Removes h (suc rounds) virt zero add pd s va vin enough entries =
    (h, refl, s, λ n le lt. absurd (omega (arith, le, lt)), λ n lt out. refl)
unmap_pages-Removes h (suc rounds) virt (suc k) add pd s va vin enough entries =
    let low : (virt + add) % 2 ^ 32 ≡ virt + add = omega (arith, vin) in
    let some_left : (4096 * suc k == 0) ≡ false = ne→== (4096 * suc k) 0 (omega arith) in
    let left : 4096 * suc k - 4096 ≡ 4096 * k = omega arith in
    let next : (virt + (add + 4096)) / 4096 ≡ (virt + add) / 4096 + 1 = omega arith in
    rw (low, some_left, left)
      (first_removed h (virt + add) k pd (unmap_pages rounds virt (4096 * k) (add + 4096) pd)
        (unmap_page (virt + add) pd h) vin va
        (entries ((virt + add) / 4096) (omega arith) (omega arith))
        (λ h1 s1 after.
          subst (λ x. Removes h1 x k pd (unmap_pages rounds virt (4096 * k) (add + 4096) pd h1))
            next
            (unmap_pages-Removes h1 rounds virt k (add + 4096) pd s1 (omega (arith, va))
              (omega (arith, vin)) (omega (arith, enough))
              (λ n le lt.
                later h h1 ((virt + add) / 4096) k pd (omega (arith, vin)) entries after n
                  (omega (arith, le, next)) (omega (arith, lt, next)))))
        (unmap_page-Unmaps h (virt + add) pd s (omega (arith, vin))))

-- In a well-formed address space, of a range below the end of the address space less one page, where
-- it is not one for pages of 4 MiB, with a round for each page and two more: behind a
-- `map_flexible` that succeeds, to a physical address at the beginning of a page from which on the
-- pages fit below 2 ^ 32, `unmap_flexible` of the range succeeds, and the entries of all pages of the
-- address space, which is well formed, are as they were before both.
pub unmap_flexible-map_flexible :
    (kernel : Bool) (rounds size physical virt_addr pd : ℕ) (h h1 : PageHeap)
    → IsSpace h pd
    → physical % 4096 ≡ 0
    → virt_addr + size + 4096 ≤ 2 ^ 32
    → physical + page_size size virt_addr ≤ 2 ^ 32
    → ((page_start virt_addr % 0x400000 == 0) && ltb 0x400000 (page_size size virt_addr)) ≡ false
    → size + 8192 ≤ 4096 * rounds
    → map_flexible rounds kernel size physical virt_addr pd h ≡ done h1
    → (h2 : PageHeap) × (unmap_flexible rounds size virt_addr pd h1 ≡ done h2)
      × IsSpace h2 pd
      × ((n : ℕ) → n < 2 ^ 20 → pte h2 pd n ≡ pte h pd n)
unfolding unmap_flexible
unmap_flexible-map_flexible kernel rounds size physical virt_addr pd h h1 s aligned low fits small
      enough e =
    let p = virt_addr / 4096 in
    let k = page_size size virt_addr / 4096 in
    let (whole, bound) = page_size-whole size virt_addr low in
    let (s1, free, entered, kept) = subst (MapsRange kernel h physical p k pd) e (
      map_flexible-MapsRange kernel rounds size physical virt_addr pd h s aligned low fits small
        enough) in
    let start : (page_start virt_addr + 0) / 4096 ≡ p = omega arith in
    let entries : (n : ℕ) → p ≤ n → n < p + k → pte h1 pd n ≢ 0 =
      λ n le lt z. flags-some kernel (omega (arith, z, entered n le lt)) in
    let (h2, run, s2, gone, same) =
      subst (λ x. Removes h1 x k pd (unmap_pages rounds (page_start virt_addr) (4096 * k) 0 pd h1))
        start
        (unmap_pages-Removes h1 rounds (page_start virt_addr) k 0 pd s1 (omega arith)
          (omega (arith, bound, low)) (omega (arith, bound, enough))
          (λ n le lt. entries n (omega (arith, le, start)) (omega (arith, lt, start)))) in
    (
      h2,
      not_large h1 h2 whole run,
      s2,
      λ n lt. elim (Bool-cases (leb p n && ltb n (p + k))) [
        | inl within ↦
            let le : p ≤ n = ground (arith, within) in
            let before : n < p + k = ground (arith, within) in
            gone n le before ∙ sym (free n le before)
        | inr outside ↦ let out = ranges n outside in same n lt out ∙ kept n lt out
      ],
    )
  where
    ranges :
        (n : ℕ)
        → (leb (virt_addr / 4096) n && ltb n (virt_addr / 4096 + page_size size virt_addr / 4096))
          ≡ false
        → (n < virt_addr / 4096) ⊎ (virt_addr / 4096 + page_size size virt_addr / 4096 ≤ n)
    ranges n outside = elim (Bool-cases (leb (virt_addr / 4096) n)) [
      | inl from ↦ inr (ground (arith, outside, from))
      | inr before ↦ inl (ground (arith, before))
    ]

    not_large :
        (h1 h2 : PageHeap)
        → page_size size virt_addr ≡ 4096 * (page_size size virt_addr / 4096)
        → unmap_pages rounds
            (page_start virt_addr)
            (4096 * (page_size size virt_addr / 4096))
            0
            pd
            h1
          ≡ done h2
        → unmap_flexible rounds size virt_addr pd h1 ≡ done h2
    not_large h1 h2 whole run =
        rw small (
          subst (λ x. unmap_pages rounds (page_start virt_addr) x 0 pd h1 ≡ done h2) (sym whole)
            run)
