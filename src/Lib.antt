-- ===== src/Lib.antt =====
-- Aphrodite: the data structures and allocators of a kernel's library, with the theorems on them.
--
-- Parts, files and the code they are about (paths from the repository's root):
-- - Base, Base/*: the native numbers, words (`u8`, `u32`, `u64` and subtraction that wraps), lists,
--   and `Outcome`, the result of code that can fail an assertion or dereference a null pointer
--   (`panic`). It models no code of its own.
-- - Arith, Arith/*: lib/overflow.h, lib/align.c, lib/align.h, lib/math.c, lib/macros.h (the 64-bit
--   functions `check_add`, `align_up`, `round_up`, `math_pow` and their kin).
-- - Ranges, Ranges/*: lib/adt/range.c, a front and a size. Every function has the name it has in C.
-- - HashMap, HashMap/*: lib/adt/hashmap.c, a table of bucket lists.
-- - Slab, Slab/*: kernel/src/mm/slab.c and slab.h, an allocator of objects of one size, whose free objects
--   form a list inside the slabs (Chain); Pool is the abstract pool that Refine, Return and Free refine.
-- - Buffer, Buffer/*: lib/adt/growable_buffer.c, a buffer of bytes; its block is a list of bytes, and
--   the blocks that the allocator gives are the list `Blocks`.
-- - Buddy, Buddy/*: kernel/src/mm/page_alloc.c, the free lists of a section of pages: Tiles and Split what is
--   added to them, Take the allocation, Merge the freeing, Zone the search of several sections whose locks
--   others may hold, and Early the first free pages of kernel/src/mm/early.c. A Measure sums a number over the
--   free blocks: their size, or whether they cover a page.
-- - Sections, Sections/*: kernel/src/mm/section.c, addresses and page numbers.
-- - Strings, Strings/*: lib/adt/mutable_buffer.c, lib/adt/string_view.c and the comparisons of
--   kernel/src/sys/stdlib.c.
-- - Kmalloc, Kmalloc/*: kernel/src/mm/kmalloc.c, the table of slab allocators, on the model of Slab.
-- - Arrays, Arrays/*: lib/adt/array.c, objects of one size in a growable buffer, on the model of Buffer.
-- - Refs, Refs/*: lib/refcount.c, a count of owners in 32 bits.
-- - Spin, Spin/*: kernel/src/cpu/spinlock.c, the ticket lock, as steps of threads that interleave.
-- - Avl, Avl/*: lib/adt/avltree.c, a search tree with stored heights; a path of parents (Frame) takes
--   the place of the parent pointers.
-- - Sched, Sched/*: kernel/src/sched/basic/sched.c, the run queue, the alarms and the switch between
--   threads, as steps on one state.
-- - Events, Events/*: kernel/src/sched/event.c, threads that wait for events, on the model of Sched.
-- - Tests/*: concrete runs.
--
-- How the code is modelled: a function of C is a function by clauses with the same name. An out
-- parameter is the value of an `Option` result, a struct that is changed in place is taken and
-- returned, a failed assertion is `panic`, and unsigned arithmetic is written out with its wrap.
-- Answers of the allocator are a list that the functions consume (`Grants`), so the
-- theorems hold wherever memory runs out, and say what a granted block must satisfy; the page
-- allocator is such a list too (`Pages`). The hash function is a parameter
-- of the theorems on the map, as it is one of the code. The loops that are modelled run over a list
-- or count down to zero; the search for a slab order has 21 tries, and 2^21 pages pass every size
-- of 32 bits; the freeing of a range of pages has as many rounds as pages, and each round frees one
-- at least; the search of a zone runs over a list of the results of its tries for locks. What a processor does under one lock is one step, and steps of several processors
-- interleave.
--
-- Not modelled: drivers, architecture code, the page tables, the file systems, ACPI and the device
-- tree (I/O and machine registers, or copies of other libraries), the parts of the library that
-- format, parse and print, the bitmaps and the address spaces, and of the page
-- allocator the allocation at an alignment, large pages and the fallback zones.
mod Base
pub mod Arith
pub mod Ranges
pub mod HashMap
pub mod Slab
pub mod Buffer
pub mod Spin
pub mod Avl
pub mod Buddy
pub mod Events
pub mod Sched
pub mod Arrays
pub mod Kmalloc
pub mod Refs
pub mod Sections
pub mod Strings
mod Tests
