-- ===== src/Memory/Paging/Tests.antt =====
-- memory/paging.c on concrete directories.
use vk.Prelude.{
  ℕ, zero, suc, ◌+◌, ◌-◌, ◌/◌, ◌%◌, ◌^◌, ◌<◌, ◌≡◌, inl, refl, true, false, List, [], ◌∷◌, some,
  get_elem?, length, ◌==◌, ltb, ◌&&◌, put_u32, align_up, align_loop, done, fatal, page_mapped,
  page_not_mapped, arith,
}
use vk.Memory.PageHeap.{PageHeap, pt_alloc, take_free, clear}
use vk.Memory.Paging.{
  unmap_flexible, get_table, map_page, unmap_page, map_page_table, map_tables, map_pages,
  map_flexible, get_physical, page_start, page_size,
}
use vk.Memory.Paging.Entries.{IsSpace, pte}
use vk.Memory.Paging.Maps.{Maps, map_page-Maps}
use vk.Memory.Paging.Removal.{unmap_flexible-map_flexible}
use vk.Memory.Paging.Ranges.{MapsRange, map_flexible-MapsRange, get_physical-map_flexible}

abbrev free_pages : ℕ → List ℕ
free_pages zero = []
free_pages (suc n) = 0 ∷ free_pages n

-- The directory that `pd` stands for, of which no entry is set.
abbrev empty_heap : PageHeap
empty_heap = record { blocks = free_pages 1024; memory = λ _. 0 }

abbrev directory : ℕ
directory = 0xD0000000

inside : (bs : List ℕ) (k : ℕ) → get_elem? bs k ≡ some 0 → k < length bs
inside [] k e = absurd (cc e)
inside (b ∷ bs) zero e = omega arith
inside (b ∷ bs) (suc k) e = let lt = inside bs k e in omega (arith, lt)

empty-IsSpace : IsSpace empty_heap directory
empty-IsSpace = record {
  marks = refl;
  low = λ i lt t. absurd (t.0 refl);
  apart = λ i lt t. absurd (t.0 refl);
  distinct = λ i j lt lt' ne t. absurd (t.0 refl);
  reserved = λ i k lt f t. absurd (t.0 refl);
  free_apart = λ k f. inl (omega (arith, inside empty_heap.blocks k f));
}

-- The page at 0x1000 with the physical address 0x5000, in the first page of the heap as its table.
abbrev page_table : ℕ
page_table = 0xC0400000

abbrev with_page : PageHeap
with_page = record {
  blocks = 1 ∷ free_pages 1023;
  memory =
      put_u32
        (put_u32 (clear (clear (λ _. 0) page_table 4096) page_table 4096) directory
          (0x400000 + 259))
        (page_table + 4) (0x5000 + 259);
}

maps_page : map_page true 0x5000 0x1000 directory empty_heap ≡ done with_page
unfolding map_page get_table pt_alloc take_free
maps_page = refl

maps_range : map_flexible 3 true 100 0x5000 0x1234 directory empty_heap ≡ done with_page
unfolding map_flexible map_pages map_page get_table pt_alloc take_free align_up align_loop
maps_range = refl

-- A page that has an entry is not entered again, and one without is not taken away.
maps_twice : map_page false 0x6000 0x1000 directory with_page ≡ fatal page_mapped
unfolding map_page get_table
maps_twice = refl

takes_none : unmap_page 0x2000 directory with_page ≡ fatal page_not_mapped
unfolding unmap_page
takes_none = refl

translates : get_physical 0x1234 directory with_page ≡ 0x5234
unfolding get_physical
translates = refl

-- A range of 8 MiB: one page of 4 MiB, and small pages for the 4 MiB that remain.
large_tables :
    map_tables 3 true 0 0x400000 0x800000 0 directory empty_heap
    ≡ done (0x400000, 0x400000, record empty_heap { memory = put_u32 (λ _. 0) (directory + 4) 387 })
unfolding map_tables map_page_table
large_tables = refl

map_page-Maps_example :
    Maps true empty_heap 0x5000 0x1000 directory (map_page true 0x5000 0x1000 directory empty_heap)
map_page-Maps_example =
    map_page-Maps true empty_heap 0x5000 0x1000 directory empty-IsSpace (omega arith) (omega arith)

page_rounded : page_size 100 0x1234 ≡ 4096
unfolding align_up align_loop
page_rounded = refl

not_large :
    ((0x1234 - 0x1234 % 4096) % 0x400000 == 0) && ltb 0x400000 (page_size 100 0x1234) ≡ false
unfolding align_up align_loop
not_large = refl

get_physical-map_flexible_example :
    get_physical 0x1250 directory with_page ≡ 0x5000 + (0x1250 - page_start 0x1234)
get_physical-map_flexible_example =
    get_physical-map_flexible true 3 100 0x5000 0x1234 directory empty_heap empty-IsSpace refl
      (omega arith) (omega (arith, page_rounded)) not_large (omega arith) with_page 0x1250
      maps_range (omega arith) (omega arith)

map_flexible-MapsRange_example :
    MapsRange true empty_heap 0x5000
      (0x1234 / 4096)
      (page_size 100 0x1234 / 4096)
      directory
      (map_flexible 3 true 100 0x5000 0x1234 directory empty_heap)
map_flexible-MapsRange_example =
    map_flexible-MapsRange true 3 100 0x5000 0x1234 directory empty_heap empty-IsSpace refl
      (omega arith) (omega (arith, page_rounded)) not_large (omega arith)

unmap_flexible-map_flexible_example :
    (h2 : PageHeap) × (unmap_flexible 3 100 0x1234 directory with_page ≡ done h2)
    × IsSpace h2 directory
    × ((n : ℕ) → n < 2 ^ 20 → pte h2 directory n ≡ pte empty_heap directory n)
unmap_flexible-map_flexible_example =
    unmap_flexible-map_flexible true 3 100 0x5000 0x1234 directory empty_heap with_page
      empty-IsSpace refl (omega arith) (omega (arith, page_rounded)) not_large (omega arith)
      maps_range
