-- ===== src/Memory/Paging/Ranges.antt =====
-- Ranges of pages, and the addresses they translate.
use vk.Prelude.{
  ℕ, zero, suc, ◌+◌, ◌-◌, ◌*◌, ◌/◌, ◌%◌, ◌^◌, ◌≤◌, ◌<◌, ◌≡◌, ◌≢◌, ◌⊎◌, refl, sym, ap, subst, ◌∙◌,
  inl, inr, Bool, true, false, set, if◌then◌else◌, ◌==◌, ltb, ◌&&◌, Bool-cases, ==→eq, ==→ne, ne→==,
  u32_at, align_up-page, Outcome, done, fatal, wild, no_fuel, page_heap_full, table_mapped,
  page_mapped, ◌>>=◌, arith,
}
use vk.Memory.PageHeap.{PageHeap}
use vk.Memory.PageHeap.Laws.{free_pages, free_pages-none}
use vk.Memory.Paging.Tables.{Uses}
use vk.Memory.Paging.{
  pd_index, pt_index, directory_entry, is_large, page_address, flags, map_page, map_pages,
  map_flexible, get_physical, page_start, page_size,
}
use vk.Memory.Paging.Entries.{IsSpace, pte}
use vk.Memory.Paging.Maps.{Maps, map_page-Maps, flags-small}

-- An address of a page that has an entry is translated by it.
pub get_physical-pte :
    (h : PageHeap) (pd virt : ℕ)
    → virt < 2 ^ 32
    → pte h pd (virt / 4096) ≢ 0
    → get_physical virt pd h ≡ pte h pd (virt / 4096) / 4096 * 4096 + virt % 4096
unfolding get_physical pte
get_physical-pte h pd virt low mapped =
    let q : virt / 4096 / 1024 ≡ pd_index virt = omega arith in
    let entry = directory_entry h pd (pd_index virt) in
    let word = u32_at h.memory (page_address entry (pt_index virt)) in
    elim (Bool-cases (entry == 0)) [
      | inl none ↦ absurd (mapped (rw (q, none) refl))
      | inr some_entry ↦ elim (Bool-cases (is_large entry)) [
        | inl large ↦ absurd (mapped (rw (q, some_entry, large) refl))
        | inr small ↦ elim (Bool-cases (word == 0)) [
          | inl zero_word ↦ absurd (mapped (rw (q, some_entry, small) (==→eq word 0 zero_word)))
          | inr set_word ↦ rw (q, some_entry, small, set_word) refl
        ]
      ]
    ]

-- What a loop over `k` pages comes to. Done, the pages from `p` on have the physical addresses from
-- `phys` on, and no other page of the address space has changed. It stops for a page of the range
-- that has an entry or lies in a page of 4 MiB, or where fewer pages of the heap are free than the
-- range has pages.
abbrev pub MapsRange : Bool → PageHeap → ℕ → ℕ → ℕ → ℕ → Outcome PageHeap → Type 0
MapsRange kernel h phys p k pd (done h') =
    IsSpace h' pd
    × ((n : ℕ) → p ≤ n → n < p + k → pte h pd n ≡ 0)
    × ((n : ℕ) → p ≤ n → n < p + k → pte h' pd n ≡ phys + 4096 * (n - p) + flags kernel)
    × ((n : ℕ) → n < 2 ^ 20 → (n < p) ⊎ (p + k ≤ n) → pte h' pd n ≡ pte h pd n)
MapsRange kernel h phys p k pd (fatal e) =
    ((e ≡ page_mapped) × (n : ℕ) × (p ≤ n) × (n < p + k) × (pte h pd n ≢ 0))
    ⊎ ((e ≡ table_mapped)
        × (n : ℕ) × (p ≤ n)
        × (n < p + k)
        × (is_large (directory_entry h pd (n / 1024)) ≡ true))
    ⊎ ((e ≡ page_heap_full) × (free_pages h.blocks < k))
MapsRange kernel h phys p k pd wild = ⊥
MapsRange kernel h phys p k pd no_fuel = ⊥

-- The pages behind the first one, of a range that has been entered up to there.
later :
    (h h1 : PageHeap) (p pd v : ℕ)
    → ((n : ℕ) → n < 2 ^ 20 → pte h1 pd n ≡ (if n == p then v else pte h pd n))
    → (n : ℕ) → n < 2 ^ 20
    → n ≢ p
    → pte h1 pd n ≡ pte h pd n
later h h1 p pd v after n lt ne = after n lt ∙ other (n == p) (ne→== n p ne)
  where
    other : (b : Bool) → b ≡ false → (if b then v else pte h pd n) ≡ pte h pd n
    other b e = rw e refl

-- One page in front of a range.
MapsRange-cons :
    (kernel : Bool) (h h1 : PageHeap) (phys p k pd : ℕ) (r : Outcome PageHeap)
    → p + suc k ≤ 2 ^ 20
    → pte h pd p ≡ 0
    → ((n : ℕ) → n < 2 ^ 20 → pte h1 pd n ≡ (if n == p then phys + flags kernel else pte h pd n))
    → Uses h h1 pd
    → MapsRange kernel h1 (phys + 4096) (p + 1) k pd r
    → MapsRange kernel h phys p (suc k) pd r
MapsRange-cons kernel h h1 phys p k pd (done h') inside free after uses (space, free', set, kept) =
    (
      space,
      λ n le lt. elim (Bool-cases (n == p)) [
        | inl here ↦ ap (pte h pd) (==→eq n p here) ∙ free
        | inr there ↦
            let ne = ==→ne n p there in
            sym (unchanged n (omega (arith, lt, inside)) ne)
            ∙ free' n (omega (arith, le, ne)) (omega (arith, lt))
      ],
      λ n le lt. elim (Bool-cases (n == p)) [
        | inl here ↦
            let e = ==→eq n p here in
            let z : n - p ≡ 0 = omega (arith, e) in
            rw (z, e) (kept p (omega (arith, inside)) (inl (omega arith)) ∙ first)
        | inr there ↦
            let ne = ==→ne n p there in
            set n (omega (arith, le, ne)) (omega (arith, lt)) ∙ omega (arith, le, ne)
      ],
      λ n lt out. kept n lt (beyond n out) ∙ unchanged n lt (not_first n out),
    )
  where
    unchanged : (n : ℕ) → n < 2 ^ 20 → n ≢ p → pte h1 pd n ≡ pte h pd n
    unchanged = later h h1 p pd (phys + flags kernel) after

    first : pte h1 pd p ≡ phys + 4096 * 0 + flags kernel
    first = ground (arith, after p (omega (arith, inside)))

    beyond : (n : ℕ) → (n < p) ⊎ (p + suc k ≤ n) → (n < p + 1) ⊎ (p + 1 + k ≤ n)
    beyond n (inl before) = inl (omega (arith, before))
    beyond n (inr behind) = inr (omega (arith, behind))

    not_first : (n : ℕ) → (n < p) ⊎ (p + suc k ≤ n) → n ≢ p
    not_first n (inl before) e = omega (arith, before, e)
    not_first n (inr behind) e = omega (arith, behind, e)
MapsRange-cons kernel h h1 phys p k pd (fatal e) inside free after uses
      (inl (e', n, le, lt, used)) =
    inl (
      e',
      n,
      omega (arith, le),
      omega (arith, lt),
      λ z. used (
          later h h1 p pd (phys + flags kernel) after n (omega (arith, lt, inside))
            (λ q. omega (arith, le, q))
          ∙ z),
    )
MapsRange-cons kernel h h1 phys p k pd (fatal e) inside free after uses
      (inr (inl (e', n, le, lt, large))) =
    inr (
      inl (
        e',
        n,
        omega (arith, le),
        omega (arith, lt),
        uses.0 (n / 1024) (omega (arith, lt, inside)) large,
      ))
MapsRange-cons kernel h h1 phys p k pd (fatal e) inside free after uses (inr (inr (e', few))) =
    inr (inr (e', omega (arith, few, uses.1)))
MapsRange-cons kernel h h1 phys p k pd wild inside free after uses r = elim r [ ]
MapsRange-cons kernel h h1 phys p k pd no_fuel inside free after uses r = elim r [ ]

-- The first page of a range and the loop over the others.
first_page :
    (kernel : Bool) (h : PageHeap) (phys virt k pd : ℕ) (rest : PageHeap → Outcome PageHeap)
    (r : Outcome PageHeap)
    → phys % 4096 ≡ 0
    → virt % 4096 ≡ 0
    → virt + 4096 * suc k ≤ 2 ^ 32
    → ((h1 : PageHeap)
        → IsSpace h1 pd
        → MapsRange kernel h1 (phys + 4096) (virt / 4096 + 1) k pd (rest h1))
    → Maps kernel h phys virt pd r
    → MapsRange kernel h phys (virt / 4096) (suc k) pd (r >>= rest)
first_page kernel h phys virt k pd rest (done h1) pa va vin ih m =
    MapsRange-cons kernel h h1 phys (virt / 4096) k pd (rest h1) (omega (arith, vin)) m.3 m.4 m.5
      (ih h1 m.0)
first_page kernel h phys virt k pd rest (fatal e) pa va vin ih (inl odd) =
    absurd (elim odd.1 [ inl x ↦ x pa | inr x ↦ x va ])
first_page kernel h phys virt k pd rest (fatal e) pa va vin ih (inr (inl large)) =
    let q : virt / 4096 / 1024 ≡ pd_index virt = omega arith in
    inr (inl (large.0, virt / 4096, omega arith, omega arith, rw q large.2))
first_page kernel h phys virt k pd rest (fatal e) pa va vin ih (inr (inr (inl used))) =
    inl (used.0, virt / 4096, omega arith, omega arith, used.1)
first_page kernel h phys virt k pd rest (fatal e) pa va vin ih (inr (inr (inr full))) =
    let none = free_pages-none h.blocks full.2 in inr (inr (full.0, omega (arith, none)))
first_page kernel h phys virt k pd rest wild pa va vin ih m = elim m [ ]
first_page kernel h phys virt k pd rest no_fuel pa va vin ih m = elim m [ ]

-- The loop over the pages of the range from `virt + add` on: `k` pages.
pub map_pages-MapsRange :
    (kernel : Bool) (h : PageHeap) (rounds phys virt k add pd : ℕ)
    → IsSpace h pd
    → (phys + add) % 4096 ≡ 0
    → (virt + add) % 4096 ≡ 0
    → phys + add + 4096 * k ≤ 2 ^ 32
    → virt + add + 4096 * k ≤ 2 ^ 32
    → k < rounds
    → MapsRange kernel h
        (phys + add)
        ((virt + add) / 4096)
        k
        pd
        (map_pages rounds kernel phys virt (4096 * k) add pd h)
unfolding map_pages
map_pages-MapsRange kernel h zero phys virt k add pd s pa va pin vin enough =
    absurd (omega (arith, enough))
map_pages-MapsRange kernel h (suc rounds) phys virt zero add pd s pa va pin vin enough = (
  s,
  λ n le lt. absurd (omega (arith, le, lt)),
  λ n le lt. absurd (omega (arith, le, lt)),
  λ n lt out. refl,
)
map_pages-MapsRange kernel h (suc rounds) phys virt (suc k) add pd s pa va pin vin enough =
    let small : (phys + add) % 2 ^ 32 ≡ phys + add = omega (arith, pin) in
    let low : (virt + add) % 2 ^ 32 ≡ virt + add = omega (arith, vin) in
    let some_left : (4096 * suc k == 0) ≡ false = ne→== (4096 * suc k) 0 (omega arith) in
    let left : 4096 * suc k - 4096 ≡ 4096 * k = omega arith in
    let a : phys + (add + 4096) ≡ phys + add + 4096 = omega arith in
    let b : (virt + (add + 4096)) / 4096 ≡ (virt + add) / 4096 + 1 = omega arith in
    rw (small, low, some_left, left)
      (first_page kernel h (phys + add) (virt + add) k pd
        (map_pages rounds kernel phys virt (4096 * k) (add + 4096) pd)
        (map_page kernel (phys + add) (virt + add) pd h) pa va vin
        (λ h1 s1.
          rw (a, b) at
            (map_pages-MapsRange kernel h1 rounds phys virt k (add + 4096) pd s1 (omega (arith, pa))
              (omega (arith, va)) (omega (arith, pin)) (omega (arith, vin))
              (omega (arith, enough))))
        (map_page-Maps kernel h (phys + add) (virt + add) pd s (omega (arith, pin))
          (omega (arith, vin))))

-- The size is one of whole pages, at least that of the bytes and less than two pages more.
pub page_size-whole :
    (size virt_addr : ℕ)
    → virt_addr + size + 4096 ≤ 2 ^ 32
    → (page_size size virt_addr ≡ 4096 * (page_size size virt_addr / 4096))
      × (4096 * (page_size size virt_addr / 4096) ≤ size + virt_addr % 4096 + 4095)
page_size-whole size virt_addr low =
    let e = align_up-page ((size + virt_addr % 4096) % 2 ^ 32) (omega arith) in
    rw e (omega (arith, low), omega (arith, low))

page_size-covers :
    (size virt_addr : ℕ)
    → virt_addr + size + 4096 ≤ 2 ^ 32
    → size + virt_addr % 4096 ≤ 4096 * (page_size size virt_addr / 4096)
page_size-covers size virt_addr low =
    let e = align_up-page ((size + virt_addr % 4096) % 2 ^ 32) (omega arith) in
    rw e (omega (arith, low))

pub flags-some : (kernel : Bool) → flags kernel ≢ 0
flags-some true = omega arith
flags-some false = omega arith

-- `map_flexible` of a range for which no page of 4 MiB is taken.
module _ (kernel : Bool) (rounds size physical virt_addr pd : ℕ) (h : PageHeap) (s : IsSpace h pd)
    (aligned : physical % 4096 ≡ 0) (low : virt_addr + size + 4096 ≤ 2 ^ 32)
    (fits : physical + page_size size virt_addr ≤ 2 ^ 32)
    (small : ((page_start virt_addr % 0x400000 == 0) && ltb 0x400000 (page_size size virt_addr))
      ≡ false)
    (enough : size + 8192 ≤ 4096 * rounds) where
  -- In a well-formed address space `map_flexible` of a range below the end of the address space less
  -- one page, to a physical address at the beginning of a page from which on the pages fit below
  -- 2 ^ 32, where the range is not one for pages of 4 MiB, with a round for each page and two more,
  -- enters exactly the pages that the range touches, in order, none of which had an entry, and leaves
  -- the space well formed; or it stops the machine with the message for it, since one of them has an
  -- entry or lies in a page of 4 MiB, or since the page heap is full, which at the beginning had fewer
  -- free pages than the range has pages.
  pub map_flexible-MapsRange :
      MapsRange kernel h physical
        (virt_addr / 4096)
        (page_size size virt_addr / 4096)
        pd
        (map_flexible rounds kernel size physical virt_addr pd h)
  unfolding map_flexible
  map_flexible-MapsRange =
      let k = page_size size virt_addr / 4096 in
      let (whole, bound) = page_size-whole size virt_addr low in
      let start : (page_start virt_addr + 0) / 4096 ≡ virt_addr / 4096 = omega arith in
      let zero_add : physical + 0 ≡ physical = omega arith in
      let range =
        map_pages-MapsRange kernel h rounds physical (page_start virt_addr) k 0 pd s
          (omega (arith, aligned)) (omega arith) (omega (arith, fits, whole))
          (omega (arith, bound, low)) (omega (arith, bound, enough)) in
      rw small (rw (start, zero_add, sym whole) at range)

  -- In a well-formed address space, with a range below the end of the address space less one page, a
  -- physical address at the beginning of a page from which on the pages fit below 2 ^ 32, no page of
  -- 4 MiB taken, and a round for each page and two more: where `map_flexible` comes to an end, every
  -- address of the range is translated to the physical address with the same distance from the first
  -- page of the range.
  pub get_physical-map_flexible :
      (h' : PageHeap) (a : ℕ)
      → map_flexible rounds kernel size physical virt_addr pd h ≡ done h'
      → virt_addr ≤ a
      → a < virt_addr + size
      → get_physical a pd h' ≡ physical + (a - page_start virt_addr)
  get_physical-map_flexible h' a e from below =
      let (whole, bound) = page_size-whole size virt_addr low in
      let covers = page_size-covers size virt_addr low in
      let m : MapsRange kernel h physical (virt_addr / 4096) (page_size size virt_addr / 4096) pd
          (done h') =
        subst (MapsRange kernel h physical (virt_addr / 4096) (page_size size virt_addr / 4096) pd)
          e map_flexible-MapsRange in
      let word = m.2 (a / 4096) (omega (arith, from)) (omega (arith, below, covers)) in
      let f = flags-small kernel in
      get_physical-pte h' pd a (omega (arith, below, low))
        (λ z. flags-some kernel (omega (arith, z, word)))
      ∙ rw word (omega (arith, aligned, f, from))
