-- ===== src/Memory/Paging.antt =====
-- memory/paging.c: page directories and page tables in the memory of the page heap, and the
-- addresses they translate. The parameter `kernel` says that the directory is that of the kernel.
-- The processor has pages of 4 MiB (`cpu_pse`); its caches (`invlpg`) are not modelled.
pub mod Entries
pub mod Fresh
pub mod Tables
pub mod Maps
pub mod Unmaps
pub mod Ranges
pub mod Removal
mod Tests
use vk.Prelude.{
  ℕ, zero, suc, ◌+◌, ◌-◌, ◌*◌, ◌/◌, ◌%◌, ◌^◌, ◌&&◌, not, Bool, true, false, List, if◌then◌else◌,
  ◌==◌, leb, ltb, u32_at, put_u32, align_up, Outcome, done, fatal, wild, no_fuel, not_aligned,
  table_mapped, page_mapped, page_not_mapped, ◌>>=◌,
}
use vk.Memory.Blocks.{Block}
use vk.Memory.Physical.{kernelf_block_type, user_block_type, reserve_block}
use vk.Memory.PageHeap.{PageHeap, clear, pt_alloc}

abbrev pub kernel_virtual_base : ℕ
kernel_virtual_base = 0xC0000000

-- `virt_addr >> 22` and `virt_addr >> 12 & 0x03FF`
abbrev pub pd_index : ℕ → ℕ
pd_index virt_addr = virt_addr / 2 ^ 22

abbrev pub pt_index : ℕ → ℕ
pt_index virt_addr = virt_addr / 2 ^ 12 % 1024

-- An entry of the directory at `pd`.
abbrev pub directory_entry : PageHeap → ℕ → ℕ → ℕ
directory_entry h pd i = u32_at h.memory (pd + 4 * i)

-- The entry stands for a page of 4 MiB: bit 7.
abbrev pub is_large : ℕ → Bool
is_large entry = entry / 2 ^ 7 % 2 == 1

-- Where the page of a table of which `entry` has the physical address has its own entry.
abbrev pub page_address : ℕ → ℕ → ℕ
page_address entry index = (entry / 2 ^ 12 * 2 ^ 12 + index * 4 + kernel_virtual_base) % 2 ^ 32

-- Present and writable, and for all address spaces or for processes.
abbrev pub flags : Bool → ℕ
flags kernel = if kernel then 259 else 7

-- The table of the entry, or a new one.
pub get_table : Bool → ℕ → ℕ → PageHeap → Outcome (ℕ × PageHeap)
get_table kernel pd i h =
    let entry = directory_entry h pd i in
    let fresh = pt_alloc h >>= λ (pt, h').
    let page_table = (pt + (2 ^ 32 - kernel_virtual_base)) % 2 ^ 32 in
    let memory = clear h'.memory ((page_table + kernel_virtual_base) % 2 ^ 32) 4096 in
    done (
      page_table,
      record h' { memory = put_u32 memory (pd + 4 * i) (page_table + flags kernel) },
    ) in
    if entry == 0 then fresh else if is_large entry then fatal table_mapped else done (entry, h)

pub map_page : Bool → ℕ → ℕ → ℕ → PageHeap → Outcome PageHeap
unfolding get_table
map_page kernel phys_addr virt_addr pd h =
    let mapped = get_table kernel pd (pd_index virt_addr) h >>= λ (page_table, h').
    let page = page_address page_table (pt_index virt_addr) in
    if not (u32_at h'.memory page == 0)
    then fatal page_mapped
    else done (record h' { memory = put_u32 h'.memory page (phys_addr + flags kernel) }) in
    if not (phys_addr % 4096 == 0)
    then fatal not_aligned
    else if not (virt_addr % 4096 == 0)
    then fatal not_aligned
    else mapped

pub map_page_table : Bool → ℕ → ℕ → ℕ → PageHeap → Outcome PageHeap
map_page_table kernel phys_addr virt_addr pd h =
    let i = pd_index virt_addr in
    if not (phys_addr % 0x400000 == 0)
    then fatal not_aligned
    else if not (virt_addr % 0x400000 == 0)
    then fatal not_aligned
    else if not (directory_entry h pd i == 0)
    then fatal table_mapped
    else done (record h {
      memory = put_u32 h.memory (pd + 4 * i) (phys_addr + (if kernel then 387 else 135));
    })

pub unmap_page : ℕ → ℕ → PageHeap → Outcome PageHeap
unmap_page virt_addr pd h =
    let entry = directory_entry h pd (pd_index virt_addr) in
    let page = page_address entry (pt_index virt_addr) in
    if not (virt_addr % 4096 == 0)
    then fatal not_aligned
    else if entry == 0
    then done h
    else if is_large entry
    then fatal table_mapped
    else if u32_at h.memory page == 0
    then fatal page_not_mapped
    else done (record h { memory = put_u32 h.memory page 0 })

pub unmap_page_table : ℕ → ℕ → PageHeap → Outcome PageHeap
unmap_page_table virt_addr pd h =
    let i = pd_index virt_addr in
    if not (virt_addr % 0x400000 == 0)
    then fatal not_aligned
    else if directory_entry h pd i == 0
    then fatal page_not_mapped
    else done (record h { memory = put_u32 h.memory (pd + 4 * i) 0 })

-- The loop over the pages of 4 MiB, and how far it gets: what is left of the size, and `add`.
pub map_tables : ℕ → Bool → ℕ → ℕ → ℕ → ℕ → ℕ → PageHeap → Outcome (ℕ × ℕ × PageHeap)
unfolding map_page_table
map_tables zero kernel phys virt size add pd h = no_fuel
map_tables (suc rounds) kernel phys virt size add pd h =
    let rest = map_page_table kernel ((phys + add) % 2 ^ 32) ((virt + add) % 2 ^ 32) pd h >>= λ h'.
    map_tables rounds kernel phys virt (size - 0x400000) (add + 0x400000) pd h' in
    if ltb 0x400000 size then rest else done (size, add, h)

-- The loop over the pages.
pub map_pages : ℕ → Bool → ℕ → ℕ → ℕ → ℕ → ℕ → PageHeap → Outcome PageHeap
unfolding map_page
map_pages zero kernel phys virt size add pd h = no_fuel
map_pages (suc rounds) kernel phys virt size add pd h =
    let rest = map_page kernel ((phys + add) % 2 ^ 32) ((virt + add) % 2 ^ 32) pd h >>= λ h'.
    map_pages rounds kernel phys virt (size - 4096) (add + 4096) pd h' in
    if size == 0 then done h else rest

-- `aligndown(virt_addr, 4096)`, and the size from there on, rounded up.
abbrev pub page_start : ℕ → ℕ
page_start virt_addr = virt_addr - virt_addr % 4096

abbrev pub page_size : ℕ → ℕ → ℕ
page_size size virt_addr = align_up ((size + virt_addr % 4096) % 2 ^ 32) 4096

pub map_flexible : ℕ → Bool → ℕ → ℕ → ℕ → ℕ → PageHeap → Outcome PageHeap
unfolding map_tables map_pages
map_flexible rounds kernel size physical virt_addr pd h =
    let virt = page_start virt_addr in
    let n = page_size size virt_addr in
    let large = map_tables rounds kernel physical virt n 0 pd h >>= λ (left, add, h').
    map_pages rounds kernel physical virt left add pd h' in
    if (virt % 0x400000 == 0) && ltb 0x400000 n
    then large
    else map_pages rounds kernel physical virt n 0 pd h

-- With the blocks of physical memory.
pub map_memory : ℕ → Bool → ℕ → ℕ → ℕ → List Block × PageHeap → Outcome (List Block × PageHeap)
unfolding map_tables map_pages
map_memory rounds kernel size virt_addr pd (blocks, h) =
    let virt = page_start virt_addr in
    let n = page_size size virt_addr in
    reserve_block n (if kernel then kernelf_block_type else user_block_type) blocks
    >>= λ (phys, blocks').
        let large = map_tables rounds kernel phys virt n 0 pd h >>= λ (left, add, h').
        map_pages rounds kernel phys virt left add pd h' in
        let small = map_pages rounds kernel phys virt n 0 pd h in
        (if (virt % 0x400000 == 0) && ltb 0x400000 n then large else small) >>= λ h'.
        done (blocks', h')

pub unmap_tables : ℕ → ℕ → ℕ → ℕ → ℕ → PageHeap → Outcome (ℕ × ℕ × PageHeap)
unfolding unmap_page_table
unmap_tables zero virt size add pd h = no_fuel
unmap_tables (suc rounds) virt size add pd h =
    let rest = unmap_page_table ((virt + add) % 2 ^ 32) pd h >>= λ h'.
    unmap_tables rounds virt (size - 0x400000) (add + 0x400000) pd h' in
    if ltb 0x400000 size then rest else done (size, add, h)

pub unmap_pages : ℕ → ℕ → ℕ → ℕ → ℕ → PageHeap → Outcome PageHeap
unfolding unmap_page
unmap_pages zero virt size add pd h = no_fuel
unmap_pages (suc rounds) virt size add pd h =
    let rest = unmap_page ((virt + add) % 2 ^ 32) pd h >>= λ h'.
    unmap_pages rounds virt (size - 4096) (add + 4096) pd h' in
    if size == 0 then done h else rest

pub unmap_flexible : ℕ → ℕ → ℕ → ℕ → PageHeap → Outcome PageHeap
unfolding unmap_tables unmap_pages
unmap_flexible rounds size virt_addr pd h =
    let virt = page_start virt_addr in
    let n = page_size size virt_addr in
    let large = unmap_tables rounds virt n 0 pd h >>= λ (left, add, h').
    unmap_pages rounds virt left add pd h' in
    if (virt % 0x400000 == 0) && ltb 0x400000 n then large else unmap_pages rounds virt n 0 pd h

-- The physical address, or 0. For a page of 4 MiB the entry of the directory is taken for the
-- address of another entry.
pub get_physical : ℕ → ℕ → PageHeap → ℕ
get_physical virt_addr pd h =
    let entry = directory_entry h pd (pd_index virt_addr) in
    let page = u32_at h.memory (page_address entry (pt_index virt_addr)) in
    if entry == 0
    then 0
    else if is_large entry
    then (u32_at h.memory entry / 2 ^ 12 * 2 ^ 12 + virt_addr % 0x400000) % 2 ^ 32
    else if not (page == 0)
    then page / 2 ^ 12 * 2 ^ 12 + virt_addr % 4096
    else 0

pub is_mapped : ℕ → ℕ → PageHeap → Bool
is_mapped virt_addr pd h =
    let entry = directory_entry h pd (pd_index virt_addr) in
    let page = u32_at h.memory (page_address entry (pt_index virt_addr)) in
    if entry == 0 then false else if is_large entry then true else not (page == 0)
