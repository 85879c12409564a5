-- ===== src/Memory/Paging/Fresh.antt =====
-- A new page table in a directory.
use vk.Prelude.{
  ℕ, ◌+◌, ◌*◌, ◌/◌, ◌%◌, ◌^◌, ◌≤◌, ◌<◌, ◌≡◌, ◌≢◌, ◌⊎◌, sym, ◌∙◌, inl, inr, List, some, get_elem?,
  get_elem?-set_self, get_elem?-set_ne, set, length, length-set, ◌==◌, ltb, Bool-cases, ==→eq,
  ==→ne, u32_at, put_u32, u32_at-put_u32, u32_at-put_u32_other, arith,
}
use vk.Memory.PageHeap.{PageHeap, page}
use vk.Memory.Paging.{directory_entry, page_address}
use vk.Memory.Paging.Entries.{
  Apart, IsTable, table, IsSpace, pte, pte-none, pte-table, pte-same, page_address-table, beside,
  between, turned,
}

-- A page that is free beside one that has been marked.
set-free :
    (bs : List ℕ) (k j : ℕ)
    → k < length bs
    → get_elem? (set bs k 1) j ≡ some 0
    → (j ≢ k) × (get_elem? bs j ≡ some 0)
set-free bs k j lt h = elim (Bool-cases (j == k)) [
  | inl same ↦
      let e = ==→eq j k same in
      let one : some 1 ≡ some 0 = sym (get_elem?-set_self bs k 1 lt) ∙ (rw e at h) in
      absurd (cc one)
  | inr other ↦
      let ne = ==→ne j k other in (ne, sym (get_elem?-set_ne bs k j 1 (λ e. ne (sym e))) ∙ h)
]

pages-Apart : (j k : ℕ) → j ≢ k → Apart (page j) (page k)
pages-Apart j k ne = elim (Bool-cases (ltb j k)) [
  | inl lt ↦ inl (ground (arith, lt))
  | inr ge ↦ inr (ground (arith, ge, ne))
]

-- The memory `m` is that of `h` with page `k` cleared, and `w` is the entry for that page.
module _ (h : PageHeap) (pd i k w : ℕ) (m : ℕ → ℕ) (s : IsSpace h pd) (inside : i < 1024)
    (none : directory_entry h pd i ≡ 0) (marked_page : k < length h.blocks)
    (free : get_elem? h.blocks k ≡ some 0) (is_table : IsTable w) (low : w < 2 ^ 30)
    (there : table w ≡ page k) (zeroed : (j : ℕ) → j < 1024 → u32_at m (page k + 4 * j) ≡ 0)
    (others : (b : ℕ)
      → (b + 4 ≤ page k) ⊎ (page k + 4096 ≤ b)
      → u32_at m b ≡ u32_at h.memory b) where
  abbrev pub extended : PageHeap
  extended = record h { blocks = set h.blocks k 1; memory = put_u32 m (pd + 4 * i) w }

  outside :
      (a j : ℕ)
      → j < 1024
      → Apart a (page k)
      → (a + 4 * j + 4 ≤ page k) ⊎ (page k + 4096 ≤ a + 4 * j)
  outside a j lt (inl before) = inl (omega (arith, before))
  outside a j lt (inr behind) = inr (omega (arith, behind))

  pub extended-here : directory_entry extended pd i ≡ w
  extended-here = u32_at-put_u32 m (pd + 4 * i) w (omega (arith, low))

  pub extended-there :
      (j : ℕ) → j < 1024 → j ≢ i → directory_entry extended pd j ≡ directory_entry h pd j
  extended-there j lt ne =
      u32_at-put_u32_other m (pd + 4 * i) w (pd + 4 * j) (beside pd j i ne)
      ∙ others (pd + 4 * j) (outside pd j lt (turned (page k) pd (s.free_apart k free)))

  -- A property of the entry is one of `w` and one of the others.
  at_entry :
      (P : ℕ → ℕ → Type 0) (j : ℕ)
      → j < 1024
      → P i w
      → ((j : ℕ) → j < 1024 → j ≢ i → P j (directory_entry h pd j))
      → P j (directory_entry extended pd j)
  at_entry P j lt new old = elim (Bool-cases (j == i)) [
    | inl same ↦ rw (==→eq j i same, extended-here) new
    | inr other ↦ let ne = ==→ne j i other in rw (extended-there j lt ne) (old j lt ne)
  ]

  pub extended-IsSpace : IsSpace extended pd
  extended-IsSpace = record {
    marks = length-set h.blocks k 1 ∙ s.marks;
    low =
        λ j lt. at_entry (λ q e. IsTable e → e < 2 ^ 30) j lt (λ t. low) (λ q lt' ne. s.low q lt');
    apart = λ j lt.
        at_entry (λ q e. IsTable e → Apart (table e) pd) j lt (λ t. rw there (s.free_apart k free))
          (λ q lt' ne. s.apart q lt');
    distinct = λ j q lt lt' ne.
        at_entry
          (λ p e.
            p ≢ q
            → IsTable e
            → IsTable (directory_entry extended pd q)
            → Apart (table e) (table (directory_entry extended pd q)))
          j lt
          (λ neq t tq.
            let old = extended-there q lt' (λ e. neq (sym e)) in
            rw (there, old)
              (turned (table (directory_entry h pd q)) (page k)
                (s.reserved q k lt' free (rw old at tq))))
          (λ p inside_p ne_p neq t.
            at_entry (λ r e. p ≢ r → IsTable e → Apart (table (directory_entry h pd p)) (table e)) q
              lt' (λ _ _. rw there (s.reserved p k inside_p free t))
              (λ r inside_r ne_r neq' t'. s.distinct p r inside_p inside_r neq' t t') neq)
          ne;
    reserved = λ j q lt h'.
        let f = set-free h.blocks k q marked_page h' in
        at_entry (λ p e. IsTable e → Apart (table e) (page q)) j lt
          (λ t. rw there (pages-Apart k q (λ e. f.0 (sym e)))) (λ p lt' ne. s.reserved p q lt' f.1);
    free_apart = λ q h'. s.free_apart q (set-free h.blocks k q marked_page h').1;
  }

  pub extended-pte : (n : ℕ) → n < 2 ^ 20 → pte extended pd n ≡ pte h pd n
  extended-pte n lt = elim (Bool-cases (n / 1024 == i)) [
    | inl here ↦
        let e = ==→eq (n / 1024) i here in
        let t : IsTable (directory_entry extended pd (n / 1024)) = rw (e, extended-here) is_table in
        pte-table extended pd n t ∙ cleared e ∙ sym (pte-none h pd n (rw e none))
    | inr there' ↦
        let ne = ==→ne (n / 1024) i there' in
        pte-same h extended pd n (extended-there (n / 1024) (omega arith) ne) (λ t. kept t)
  ]
    where
      cleared :
          n / 1024 ≡ i
          → u32_at extended.memory
              (page_address (directory_entry extended pd (n / 1024)) (n % 1024))
            ≡ 0
      cleared e =
          rw (e, extended-here, page_address-table w (n % 1024) low (omega arith), there)
            (u32_at-put_u32_other m (pd + 4 * i) w (page k + 4 * (n % 1024))
                (between (page k) pd (n % 1024) i (omega arith) inside (s.free_apart k free))
              ∙ zeroed (n % 1024) (omega arith))

      kept :
          IsTable (directory_entry h pd (n / 1024))
          → let a = page_address (directory_entry h pd (n / 1024)) (n % 1024) in
            u32_at extended.memory a ≡ u32_at h.memory a
      kept t =
          let e = directory_entry h pd (n / 1024) in
          let a =
            page_address-table e (n % 1024) (s.low (n / 1024) (omega arith) t) (omega arith) in
          rw a (
            u32_at-put_u32_other m (pd + 4 * i) w (table e + 4 * (n % 1024)) (
              between (table e) pd (n % 1024) i (omega arith) inside
                (s.apart (n / 1024) (omega arith) t))
            ∙ others (table e + 4 * (n % 1024)) (
                outside (table e) (n % 1024) (omega arith)
                  (s.reserved (n / 1024) k (omega arith) free t)))
