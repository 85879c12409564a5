-- ===== src/Lib.antt =====
-- VK, a small kernel for 32-bit x86: its parts, as models whose functions follow the C functions of
-- the same names, and what is proved of them.
--
-- The parts and how they interact. physical.c keeps a list of all of the machine's memory by
-- blocks, kvmheap.c one of the kernel's addresses that are given out by pages, and kpageheap.c one
-- of 1024 page tables. kheap.c stands on all three: its blocks lie one behind the other in memory,
-- each behind its header, and it grows by mapping pages. Every other part takes its objects from
-- the heap: the queues of util/data_structs.c, the buffers of io/stream.c, through which the
-- keyboard and the terminals feed the processes. The terminals show their text on the screen of
-- video/vga_text.c. fat32.c keeps the table of clusters of a volume in memory, reads and writes
-- clusters through block_devices.c, and gives out one node for each file; ext2.c keeps what is used
-- in bitmaps on the drive. vfs.c calls the driver of the file system that a file belongs to.
--
-- Which file models which part:
--   Memory/Blocks     the lists of blocks that memory/physical.c and memory/kvmheap.c share (mem.h),
--                     split and merged; Contract says what both promise
--   Memory/Virtual    memory/kvmheap.c
--   Memory/Physical   memory/physical.c
--   Memory/Heap       memory/kheap.c
--   Memory/PageHeap   memory/kpageheap.c
--   Memory/Paging     memory/paging.c, on the memory of the page heap
--   Video             video/vga_text.c
--   Io/Stream         io/stream.c
--   Io/Tty            io/ttys.c
--   Devices/Keyboard  devices/keyboard.c and the interrupt of the keyboard in cpu/isrs.c
--   Devices/Ata       storage/ata/ata_pio.c and the commands of storage/ata/ata_common.c: reads by
--                     polling, over the ports of the machine; Words says what is known of a drive
--   Util/Queue        the queues of util/data_structs.c
--   Util/Number       atoi and utoa of util/lib.c
--   Time              the dates of time/time.c, to and from seconds
--   Filesystem/Files  read_file and write_file of filesystem/vfs.c
--   Filesystem/Drive  what the file systems use of storage/block_devices.c, as an interface; Polled
--                     is block_read_flexible on an ATA drive that is read by polling, where all
--                     reads of one operation begin in the same idle state of the drive
--   Filesystem/Fat32  filesystem/fat32.c: Table the table of clusters and Store the table on the
--                     drive, File and Write the bytes of a file, Entry and Directory the entries of
--                     directories, Cache the nodes, Operations what the virtual file system calls
--   Filesystem/Ext2   the bitmaps of filesystem/ext2.c and the allocation of blocks and inodes,
--                     and the loops over the entries of a directory
--   Tasking/Sleep     the sleeping threads of tasking/scheduler/scheduler.c
--   Tasking/Groups    the search for a group in tasking/processes/groups.c
--   Tasking/Signal    tasking/processes/signal.c
--   Prelude           names of the libraries, tests on numbers, sequences, results, and alignup of
--                     util/util.h
-- A function of the source that changes state takes the state and returns it. One that can call
-- fatal_kernel_error returns an Outcome: done, fatal with the message, wild for an access through a
-- pointer that leads nowhere, no_fuel for a loop that was not given enough rounds.
--
-- Numbers are natural numbers; a u32 that wraps around has its remainder by 2^32 written out
-- where the code computes it. Fuel: alignup(i, a) takes at most a rounds, which the model gives
-- it. kmalloc takes a round for each growth of the heap by 4 MiB and one more; what is proved is
-- about heaps that need no growth or cannot grow, for which one round is enough. A u32 has at
-- most ten digits, so utoa takes ten rounds, the loops that read the string back one more, and a
-- sign another. A walk along a chain of clusters takes as many rounds as the chain has clusters,
-- the search for a free cluster one more than the table has entries. A walk along a directory of
-- ext2 takes one more than it has entries, the search for a group at most two more than there
-- are groups. The loop over the pages of a range takes a round more than it has pages. A read by
-- polling takes a round for each word and 257 more, and at most 65537 for 255 sectors. The loop
-- over the years has 256 rounds, since a year is a byte. The other loops run along a list, or
-- over a count that the code itself has.
--
-- Not modelled: interrupts of a running function and concurrency, and with them the mutexes;
-- every function runs to its end alone, but a read that waits returns and goes on later. The
-- doubly linked lists of blocks are sequences, so that the pointers back, and reserve_specific,
-- which leaves one of them stale, have no place in the model. The bytes inside the blocks of the
-- heap are not modelled, nor that krealloc moves what others point to. In kheap_expand the call
-- of map_memory is a parameter, on which no theorem relies: that map_memory takes memory from
-- the same heap, so that an expansion can call itself again, is not modelled. Memory/Paging
-- models it for itself, without the caches of the processor and the processors without pages of
-- 4 MiB. Of ttys.c tty_ioctl and the registration of the terminals are left out. The writes to
-- drives, transfers by DMA, the PCI bus, the processor's tables and the assembly are left out;
-- the paths and mount points of vfs.c, the other file systems, the processes and the loader are
-- not modelled, nor are the inodes of ext2.c and the changes of groups in groups.c. Of fat32.c
-- the functions that make new entries, list a directory, rename a file and set the file system
-- up are left out, and the part of fat32_unlink that takes the node out of the list.
pub mod Prelude
pub mod Memory
pub mod Video
pub mod Io
pub mod Util
pub mod Tasking
pub mod Time
pub mod Filesystem
pub mod Devices
