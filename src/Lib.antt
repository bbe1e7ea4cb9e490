-- ===== src/Lib.antt =====
-- Three assignments on the xv6 operating system: the page replacement of mp2, the user-level threads
-- of mp1, and the kernel under them.
--
-- The parts, and the files that model them:
--   * mp2/kernel/fifo.c and lru.c keep the page-table entries that were accessed in a buffer of eight
--     places. Paging/Fifo and Paging/Lru have a function for each of theirs, under the same name, on a
--     record of `size` and `bucket`; Paging/Search is their search loop and Paging/Buffer the loop that
--     closes a gap.
--   * `walk` of mp2/kernel/vm.c updates that buffer at each access. Paging/Replace has this part of
--     `walk` as `lru_touch` for the kernel built with PG_REPLACEMENT_USE_LRU and as `fifo_touch` for
--     PG_REPLACEMENT_USE_FIFO; Paging/Replace/LruSpec and FifoSpec hold the abstract views.
--   * mp2/kernel/kalloc.c hands out pages. Memory models memory as a function from addresses to words,
--     with the free list threaded through the free pages as in the source.
--   * The page tables of mp2/kernel/vm.c, with the macros of riscv.h, are Vm and the modules under it.
--     They use the allocator for new tables and a parameter `touch` for the accounting, which
--     Vm/Kernels fills with either kernel's.
--     Vm/Fault is the page fault handler of mp2/kernel/paging.c.
--   * mp2/kernel/pipe.c passes bytes through a ring of 512. Pipe has one function for each round of the
--     loops of pipewrite and piperead; Pipe/Trace has their interleavings as sequences of steps.
--   * mp2/kernel/string.c has the functions on blocks of bytes and on strings; Bytes has all of them
--     but strlen, and Bytes/Copy and Bytes/Strings what they copy.
--   * mp1/xv6/user/threads.c has a ring of threads and, in each thread, a stack of tasks. Threads has
--     the ring in a store of linked records; Threads/Dispatch tells which context `dispatch` goes to.
--   * mp2/kernel/log.c makes the writes of a system call atomic. Log has each of its functions on a
--     record of the disk, the cached blocks and the counters, with every state that the disk has gone
--     through; Log/Crash is about a loss of power between any two writes, again during recovery as well,
--     and Log/Reserve about any number of system calls at once.
--   * mp2/kernel/proc.c is the process table. Proc has its small functions and Proc/Calls has fork, exit
--     and wait, cut where they take and give back locks; Proc/Step is the relation of all their steps.
--   * mp2/kernel/bio.c is the buffer cache. Cache has the list of buffers as a list of their numbers, and
--     the two functions that pass a page to eight blocks of the disk and back.
--   * The map of free blocks of mp2/kernel/fs.c is Bitmap: balloc, bfree, balloc_page and bfree_page, on
--     the blocks as the cache holds them.
--   * The matcher of mp2/user/grep.c is Grep; Grep/Language says what an expression means.
--
-- State is passed explicitly. A function that can panic, write outside an array or run out of fuel
-- returns a `Run`, with `panic`, `fault` and `out_of_fuel` as outcomes of their own; an unsigned
-- C integer is a natural number with its wrap-around written out, signed counters are taken not to
-- overflow, and -1 stands in the integers of Common/Int.
--
-- Fuel: the loop of `mappages` has one round for each page below MAXVA and two more, as `walk` panics
-- from MAXVA on; `freerange` has a round for each page below its end and one more; `balloc` and
-- `balloc_page` have a round for each block of the map and two more.
--
-- Not modelled: the other functions of vm.c on user memory, `swap_page_from_pte` and `madvise`; inodes
-- and directories of fs.c; the table of open files but for its counts, and spin locks and sleep locks;
-- strlen; user programs other than threads.c and the matcher of grep.c;
-- device drivers, traps and start-up, whose behaviour is the hardware's; and the contents of the
-- contexts that `setjmp` and `swtch` save. What a kernel's lock protects is one step here.
pub mod Common
pub mod Memory
pub mod Paging
pub mod Vm
pub mod Threads
pub mod Pipe
pub mod Bytes
pub mod Bitmap
pub mod Cache
pub mod Grep
pub mod Log
pub mod Proc
