-- ===== src/Memory/Paging/Entries.antt =====
-- Address spaces that are well formed, and what a write of one word does to them.
use vk.Prelude.{
  ℕ, ◌+◌, ◌*◌, ◌/◌, ◌%◌, ◌^◌, ◌≤◌, ◌<◌, ◌≡◌, ◌≢◌, ◌⊎◌, refl, ◌∙◌, inl, inr, false, some, get_elem?,
  length, if◌then◌else◌, ◌==◌, ltb, Bool-cases, ==→eq, ==→ne, ne→==, u32_at, put_u32,
  u32_at-put_u32, u32_at-put_u32_other, arith,
}
use vk.Memory.PageHeap.{PageHeap, page}
use vk.Memory.Paging.{kernel_virtual_base, directory_entry, is_large, page_address}

-- The two pages do not meet.
abbrev pub Apart : ℕ → ℕ → Type 0
Apart a b = (a + 4096 ≤ b) ⊎ (b + 4096 ≤ a)

abbrev pub IsTable : ℕ → Type 0
IsTable entry = (entry ≢ 0) × (is_large entry ≡ false)

-- Where the table of an entry stands.
abbrev pub table : ℕ → ℕ
table entry = entry / 2 ^ 12 * 2 ^ 12 + kernel_virtual_base

-- The tables of a directory, the directory and the free pages do not meet each other.
pub record IsSpace (h : PageHeap) (pd : ℕ) : Type 0 where
  pub marks : length h.blocks ≡ 1024
  pub low : (i : ℕ) → i < 1024 → IsTable (directory_entry h pd i) → directory_entry h pd i < 2 ^ 30
  pub apart :
      (i : ℕ)
      → i < 1024
      → IsTable (directory_entry h pd i)
      → Apart (table (directory_entry h pd i)) pd
  pub distinct :
      (i j : ℕ)
      → i < 1024
      → j < 1024
      → i ≢ j
      → IsTable (directory_entry h pd i)
      → IsTable (directory_entry h pd j)
      → Apart (table (directory_entry h pd i)) (table (directory_entry h pd j))
  pub reserved :
      (i k : ℕ)
      → i < 1024
      → get_elem? h.blocks k ≡ some 0
      → IsTable (directory_entry h pd i)
      → Apart (table (directory_entry h pd i)) (page k)
  pub free_apart : (k : ℕ) → get_elem? h.blocks k ≡ some 0 → Apart (page k) pd

-- The entry of page `n` of the address space, 0 for none.
unfoldable pub pte : PageHeap → ℕ → ℕ → ℕ
pte h pd n =
    let entry = directory_entry h pd (n / 1024) in
    if entry == 0
    then 0
    else if is_large entry
    then 0
    else u32_at h.memory (page_address entry (n % 1024))

pub page_address-table :
    (entry k : ℕ) → entry < 2 ^ 30 → k < 1024 → page_address entry k ≡ table entry + 4 * k
page_address-table entry k low inside = omega arith

pub pte-none : (h : PageHeap) (pd n : ℕ) → directory_entry h pd (n / 1024) ≡ 0 → pte h pd n ≡ 0
unfolding pte
pte-none h pd n e = rw e refl

pub pte-table :
    (h : PageHeap) (pd n : ℕ)
    → IsTable (directory_entry h pd (n / 1024))
    → pte h pd n ≡ u32_at h.memory (page_address (directory_entry h pd (n / 1024)) (n % 1024))
unfolding pte
pte-table h pd n t = let z = ne→== (directory_entry h pd (n / 1024)) 0 t.0 in rw (z, t.1) refl

-- Where the entries of the directory and the words of its tables are as they were, so are the
-- entries of the pages.
pub pte-same :
    (h h' : PageHeap) (pd n : ℕ)
    → directory_entry h' pd (n / 1024) ≡ directory_entry h pd (n / 1024)
    → (IsTable (directory_entry h pd (n / 1024))
        → let a = page_address (directory_entry h pd (n / 1024)) (n % 1024) in
          u32_at h'.memory a ≡ u32_at h.memory a)
    → pte h' pd n ≡ pte h pd n
unfolding pte
pte-same h h' pd n same words =
    let entry = directory_entry h pd (n / 1024) in
    elim (Bool-cases (entry == 0)) [
      | inl none ↦ rw (same, none) refl
      | inr some_entry ↦ elim (Bool-cases (is_large entry)) [
        | inl large ↦ rw (same, some_entry, large) refl
        | inr small ↦ rw (same, some_entry, small) (words (==→ne entry 0 some_entry, small))
      ]
    ]

-- The same entries of the directory and the same marks make the same space.
pub IsSpace-same :
    (h h' : PageHeap) (pd : ℕ)
    → IsSpace h pd
    → h'.blocks ≡ h.blocks
    → ((i : ℕ) → i < 1024 → directory_entry h' pd i ≡ directory_entry h pd i)
    → IsSpace h' pd
IsSpace-same h h' pd s marks same = record {
  marks = rw marks s.marks;
  low = λ i lt. rw (same i lt) (s.low i lt);
  apart = λ i lt. rw (same i lt) (s.apart i lt);
  distinct = λ i j lt lt' ne. rw (same i lt, same j lt') (s.distinct i j lt lt' ne);
  reserved = λ i k lt. rw (marks, same i lt) (s.reserved i k lt);
  free_apart = λ k. rw marks (s.free_apart k);
}

-- Words of one page, and words of two pages, do not meet.
pub beside : (a j k : ℕ) → j ≢ k → (a + 4 * j + 4 ≤ a + 4 * k) ⊎ (a + 4 * k + 4 ≤ a + 4 * j)
beside a j k ne = elim (Bool-cases (ltb j k)) [
  | inl lt ↦ inl (ground (arith, lt))
  | inr ge ↦ inr (ground (arith, ge, ne))
]

pub turned : (a b : ℕ) → Apart a b → Apart b a
turned a b (inl before) = inr before
turned a b (inr behind) = inl behind

pub between :
    (a b j k : ℕ)
    → j < 1024
    → k < 1024
    → Apart a b
    → (a + 4 * j + 4 ≤ b + 4 * k) ⊎ (b + 4 * k + 4 ≤ a + 4 * j)
between a b j k lt lt' (inl before) = inl (omega (arith, before))
between a b j k lt lt' (inr behind) = inr (omega (arith, behind))

-- A word written into the table of entry `i`.
module _ (h : PageHeap) (pd i k v : ℕ) (s : IsSpace h pd) (inside : i < 1024) (below : k < 1024)
    (t : IsTable (directory_entry h pd i)) where
  abbrev pub written : PageHeap
  written = record h { memory = put_u32 h.memory (page_address (directory_entry h pd i) k) v }

  pub written-directory : (j : ℕ) → j < 1024 → directory_entry written pd j ≡ directory_entry h pd j
  written-directory j lt =
      let e = page_address-table (directory_entry h pd i) k (s.low i inside t) below in
      rw e (
        u32_at-put_u32_other h.memory (table (directory_entry h pd i) + 4 * k) v (pd + 4 * j) (
          between pd (table (directory_entry h pd i)) j k lt below
            (turned (table (directory_entry h pd i)) pd (s.apart i inside t))))

  pub written-IsSpace : IsSpace written pd
  written-IsSpace = IsSpace-same h written pd s refl written-directory

  pub written-pte :
      (n : ℕ)
      → v < 2 ^ 32
      → n < 2 ^ 20
      → pte written pd n ≡ (if n == 1024 * i + k then v else pte h pd n)
  written-pte n small page_number = elim (Bool-cases (n == 1024 * i + k)) [
    | inl here ↦
        let e = ==→eq n (1024 * i + k) here in
        let q : n / 1024 ≡ i = omega (arith, e) in
        let r : n % 1024 ≡ k = omega (arith, e) in
        let is_table : IsTable (directory_entry written pd (n / 1024)) =
          rw (q, written-directory i inside) t in
        rw here (pte-table written pd n is_table ∙ at_table q r)
    | inr other ↦ rw other (
        pte-same h written pd n (written-directory (n / 1024) (omega arith)) (λ tn.
          u32_at-put_u32_other h.memory (page_address (directory_entry h pd i) k) v
            (page_address (directory_entry h pd (n / 1024)) (n % 1024))
            (elsewhere (==→ne n (1024 * i + k) other) tn)))
  ]
    where
      at_table :
          n / 1024 ≡ i
          → n % 1024 ≡ k
          → u32_at
              (put_u32 h.memory (page_address (directory_entry h pd i) k) v)
              (page_address (directory_entry written pd (n / 1024)) (n % 1024))
            ≡ v
      at_table q r =
          rw (q, r, written-directory i inside)
            (u32_at-put_u32 h.memory (page_address (directory_entry h pd i) k) v small)

      elsewhere :
          n ≢ 1024 * i + k
          → IsTable (directory_entry h pd (n / 1024))
          → (page_address (directory_entry h pd (n / 1024)) (n % 1024) + 4
              ≤ page_address (directory_entry h pd i) k)
            ⊎ (page_address (directory_entry h pd i) k + 4
                ≤ page_address (directory_entry h pd (n / 1024)) (n % 1024))
      elsewhere ne tn =
          let a = page_address-table (directory_entry h pd i) k (s.low i inside t) below in
          let b =
            page_address-table (directory_entry h pd (n / 1024)) (n % 1024)
              (s.low (n / 1024) (omega arith) tn) (omega arith) in
          elim (Bool-cases (n / 1024 == i)) [
            | inl same ↦
                let q = ==→eq (n / 1024) i same in
                rw (a, b, q)
                  (beside (table (directory_entry h pd i)) (n % 1024) k (omega (arith, ne, q)))
            | inr different ↦
                rw (a, b)
                  (between (table (directory_entry h pd (n / 1024)))
                    (table (directory_entry h pd i)) (n % 1024) k (omega arith) below
                    (s.distinct (n / 1024) i (omega arith) inside (==→ne (n / 1024) i different) tn
                      t))
          ]
