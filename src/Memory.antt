-- ===== src/Memory.antt =====
-- memory/: the kernel's allocators.
pub mod Blocks
pub mod Virtual
pub mod Physical
pub mod Heap
pub mod PageHeap
pub mod Paging
