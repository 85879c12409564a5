-- ===== src/Memory/Paging/Tables.antt =====
-- The page table for an address: one that there is, or a new one.
use vk.Prelude.{
  ℕ, suc, ◌+◌, ◌-◌, ◌*◌, ◌%◌, ◌^◌, ◌≤◌, ◌<◌, ◌≡◌, ◌≢◌, ◌⊎◌, refl, inl, inr, Bool, true, false, some,
  get_elem?, set, length, All, ◌==◌, Bool-cases, ==→eq, ==→ne, u32_at, put_u32, Outcome, done,
  fatal, wild, no_fuel, page_heap_full, table_mapped, ◌>>=◌, arith,
}
use vk.Memory.PageHeap.{PageHeap, page, clear, pt_alloc}
use vk.Memory.PageHeap.Laws.{Allocates, free_pages, free_pages-set, pt_alloc-Allocates}
use vk.Memory.Paging.{
  kernel_virtual_base, directory_entry, is_large, page_address, flags, get_table,
}
use vk.Memory.Paging.Entries.{IsTable, table, IsSpace, pte}
use vk.Memory.Paging.Fresh.{extended-here, extended-there, extended-IsSpace, extended-pte}

-- No entry of the directory has become one of a page of 4 MiB, and at most one page of the page heap
-- has been taken.
abbrev pub Uses : PageHeap → PageHeap → ℕ → Type 0
Uses h h' pd =
    ((j : ℕ)
      → j < 1024
      → is_large (directory_entry h' pd j) ≡ true
      → is_large (directory_entry h pd j) ≡ true)
    × (free_pages h.blocks ≤ suc (free_pages h'.blocks))

-- The table of entry `i`, be it new or not; the entries of all pages are as they were.
pub record Got (h : PageHeap) (pd i t : ℕ) (h' : PageHeap) : Type 0 where
  pub space : IsSpace h' pd
  pub is_table : IsTable (directory_entry h' pd i)
  pub same_page : (k : ℕ) → k < 1024 → page_address t k ≡ page_address (directory_entry h' pd i) k
  pub kept : (n : ℕ) → n < 2 ^ 20 → pte h' pd n ≡ pte h pd n
  pub uses : Uses h h' pd

abbrev pub Gets : PageHeap → ℕ → ℕ → Outcome (ℕ × PageHeap) → Type 0
Gets h pd i (done (t, h')) = Got h pd i t h'
Gets h pd i (fatal e) =
    ((e ≡ table_mapped) × (directory_entry h pd i ≢ 0) × (is_large (directory_entry h pd i) ≡ true))
    ⊎ ((e ≡ page_heap_full) × (directory_entry h pd i ≡ 0) × All (λ b. b ≢ 0) h.blocks)
Gets h pd i wild = ⊥
Gets h pd i no_fuel = ⊥

-- What `get_table` makes of a fresh page.
abbrev with_table : Bool → ℕ → ℕ → ℕ × PageHeap → Outcome (ℕ × PageHeap)
with_table kernel pd i (pt, h') =
    let page_table = (pt + (2 ^ 32 - kernel_virtual_base)) % 2 ^ 32 in
    let memory = clear h'.memory ((page_table + kernel_virtual_base) % 2 ^ 32) 4096 in
    done
      (page_table, record h' { memory = put_u32 memory (pd + 4 * i) (page_table + flags kernel) })

flags-cases : (kernel : Bool) → (flags kernel ≡ 259) ⊎ (flags kernel ≡ 7)
flags-cases true = inl refl
flags-cases false = inr refl

entry-IsTable :
    (kernel : Bool) (k : ℕ)
    → k < 1024
    → let w = 0x400000 + 4096 * k + flags kernel in
      IsTable w
      × (w < 2 ^ 30)
      × (table w ≡ page k)
      × ((j : ℕ) → j < 1024 → page_address (0x400000 + 4096 * k) j ≡ page_address w j)
entry-IsTable true k lt =
    ((omega arith, ground arith), omega arith, omega arith, λ j lt'. omega arith)
entry-IsTable false k lt =
    ((omega arith, ground arith), omega arith, omega arith, λ j lt'. omega arith)

-- The word at `b` of memory in which page `k` has been cleared.
cleared-inside :
    (g : ℕ → ℕ) (k j : ℕ) → j < 1024 → u32_at (clear g (page k) 4096) (page k + 4 * j) ≡ 0
cleared-inside g k j lt = ground arith

cleared-outside :
    (g m : ℕ → ℕ) (k b : ℕ)
    → ((x : ℕ) → (x < page k) ⊎ (page k + 4096 ≤ x) → g x ≡ m x)
    → (b + 4 ≤ page k) ⊎ (page k + 4096 ≤ b)
    → u32_at (clear g (page k) 4096) b ≡ u32_at m b
cleared-outside g m k b same (inl before) = ground (
  arith,
  same b (inl (omega arith)),
  same (b + 1) (inl (omega arith)),
  same (b + 2) (inl (omega arith)),
  same (b + 2 + 1) (inl (omega arith)),
)
cleared-outside g m k b same (inr behind) = ground (
  arith,
  same b (inr (omega arith)),
  same (b + 1) (inr (omega arith)),
  same (b + 2) (inr (omega arith)),
  same (b + 2 + 1) (inr (omega arith)),
)

extended-Got :
    (kernel : Bool) (h : PageHeap) (pd i k : ℕ) (g : ℕ → ℕ)
    → IsSpace h pd
    → i < 1024
    → directory_entry h pd i ≡ 0
    → k < 1024
    → get_elem? h.blocks k ≡ some 0
    → ((x : ℕ) → (x < page k) ⊎ (page k + 4096 ≤ x) → g x ≡ h.memory x)
    → Got h pd i (0x400000 + 4096 * k) (record h {
      blocks = set h.blocks k 1;
      memory = put_u32 (clear g (page k) 4096) (pd + 4 * i) (0x400000 + 4096 * k + flags kernel);
    })
extended-Got kernel h pd i k g s inside none lt free same =
    let w = 0x400000 + 4096 * k + flags kernel in
    let m = clear g (page k) 4096 in
    let (is_table, low, there, same_page) = entry-IsTable kernel k lt in
    let marked_page : k < length h.blocks = omega (arith, s.marks) in
    let zeroed = cleared-inside g k in
    let others = λ (b : ℕ). cleared-outside g h.memory k b same in
    let here =
      extended-here h pd i k w m s inside none marked_page free is_table low there zeroed others in
    record {
      space =
          extended-IsSpace h pd i k w m s inside none marked_page free is_table low there zeroed
            others;
      is_table = rw here is_table;
      same_page = λ j lt'. rw here (same_page j lt');
      kept =
          extended-pte h pd i k w m s inside none marked_page free is_table low there zeroed others;
      uses = (
        λ j lt' large. elim (Bool-cases (j == i)) [
          | inl same_entry ↦
              let l = rw (==→eq j i same_entry, here) at large in
              absurd (ground (arith, l, is_table.1))
          | inr other ↦
              let there_too =
                extended-there h pd i k w m s inside none marked_page free is_table low there zeroed
                  others j lt' (==→ne j i other) in
              rw there_too at large
        ],
        free_pages-set h.blocks k 1,
      );
    }

fresh-Gets :
    (kernel : Bool) (h : PageHeap) (pd i : ℕ) (r : Outcome (ℕ × PageHeap))
    → IsSpace h pd
    → i < 1024
    → directory_entry h pd i ≡ 0
    → Allocates h r
    → Gets h pd i (r >>= with_table kernel pd i)
fresh-Gets kernel h pd i (done (a, g)) s inside none al =
    let k = al.index in
    let value : (a + (2 ^ 32 - kernel_virtual_base)) % 2 ^ 32 ≡ 0x400000 + 4096 * k =
      omega (arith, al.address, al.inside) in
    let back : (0x400000 + 4096 * k + kernel_virtual_base) % 2 ^ 32 ≡ page k =
      omega (arith, al.inside) in
    rw (value, back, al.marked)
      (extended-Got kernel h pd i k g.memory s inside none al.inside al.was_free
        (λ x out. same_outside x out))
  where
    same_outside :
        (x : ℕ) → (x < page al.index) ⊎ (page al.index + 4096 ≤ x) → g.memory x ≡ h.memory x
    same_outside x (inl before) = al.before x (omega (arith, al.address, before))
    same_outside x (inr behind) = al.behind x (omega (arith, al.address, behind))
fresh-Gets kernel h pd i (fatal e) s inside none al = inr (al.0, none, al.1)
fresh-Gets kernel h pd i wild s inside none al = elim al [ ]
fresh-Gets kernel h pd i no_fuel s inside none al = elim al [ ]

pub get_table-Gets :
    (kernel : Bool) (h : PageHeap) (pd i : ℕ)
    → IsSpace h pd
    → i < 1024
    → Gets h pd i (get_table kernel pd i h)
unfolding get_table
get_table-Gets kernel h pd i s inside =
    let entry = directory_entry h pd i in
    elim (Bool-cases (entry == 0)) [
      | inl none ↦ rw none (
          fresh-Gets kernel h pd i (pt_alloc h) s inside (==→eq entry 0 none)
            (pt_alloc-Allocates h s.marks))
      | inr there ↦ elim (Bool-cases (is_large entry)) [
        | inl large ↦ rw (there, large) (inl (refl, ==→ne entry 0 there, large))
        | inr small ↦
            rw (there, small)
              (record {
                space = s;
                is_table = (==→ne entry 0 there, small);
                same_page = λ k lt. refl;
                kept = λ n lt. refl;
                uses = (λ j lt large. large, omega arith);
              })
      ]
    ]
