-- ===== src/Lib.antt =====
-- Verification library of the Erebus kernel: its physical page allocator and heap, its
-- scheduler's queues, a lock, a lock-free queue and part of its C library.
--
-- The program is a kernel. Of its parts this library models three groups and the container that
-- one of them stands on, locks and a queue that the rest of the kernel uses, and routines of the
-- library below it.
--
-- The scheduler's queues. Every CPU has a run queue (kernel/src/sched/runqueue.cpp), which puts
-- two real-time FIFOs above a fair queue (kernel/src/sched/eevdf.cpp). The fair queue keeps its
-- waiting entities in an intrusive AVL tree (kernel/include/utils/avl_tree.hpp) that is ordered
-- by deadline and in which each node knows the least virtual runtime of its subtree.
--   * Avl models `AvlTree`: a node is a constructor and the parent links above it are a list of
--     frames. Its children are on order, balance, walks and the height.
--   * Eevdf models `Entity` and `EevdfQueue`, one function per method. Entities are known by an
--     id, which stands for their address, and 64- and 128-bit arithmetic has its wrap-around
--     written out. Its children are on the invariant, eligibility, lag and the choice.
--   * RunQueue models `RunQueue`, on a store of the thread fields that it reads and writes;
--     RunQueue.Pick has what runs under its lock. Its children are on the FIFOs and the order of
--     classes in `pick_next_locked`.
--   * NumaDomain models the domain of a node (kernel/src/sched/numa_domain.cpp): which CPUs are
--     idle and which queues are overloaded, in words of klib/include/bmi_word.hpp. Run queues
--     report to it; in RunQueue the bit of the queue itself stands for that. NumaDomain.Scan gives
--     the loop of `claim_idle_core` 65 rounds on a word of 64 bits, each of which clears one.
--   * Scheduler models what Scheduler::enqueue, wake, switch_away and the block and exit calls
--     (kernel/src/sched/scheduler.cpp) do to one thread when they run at the same time: a step
--     relation on what the run queues and the thread's fields say of it. A section under the lock
--     of a queue is one step, but in `wake` the look at the state and what follows are two, since
--     the thread itself stores its state without the lock. Its children are on the places of a
--     thread, the steps that keep it in one, safety and liveness.
--
-- The physical page allocator. A zone (kernel/src/memory/pmm/mobility-zone.cpp) is a buddy
-- allocator over the page descriptors of kernel/include/memory/pmm/page.hpp and the free lists of
-- free_area.hpp beside it; in front of it stand per-CPU lists (pcp_cache.hpp beside it).
--   * Zone models the locked core: merging, extraction, the deferred frees, the steal. A free
--     list is a list of frame numbers, the descriptors are a function from frame numbers. Its
--     children weigh the free blocks: the page counter is one such weight, and how often a frame
--     lies in a free block is another.
--   * Pcp models a per-CPU list, a ring of 256 slots; Zone.Cached models allocation and free
--     through it, `alloc_pages` and `free_page` of the zone.
--
-- Locks models the reader-writer lock of kernel/src/utils/locks/rwlock.cpp with the ticket lock
-- that its writers queue on (ticket-spinlock.cpp beside it). Here the code is not a function but
-- a step relation: a step is one atomic access of one thread, and any thread may take the next.
-- Its children are on the invariant, the moves that keep it, safety and liveness.
--
-- RingBuffer models the bounded queue of kernel/include/utils/ring_buffer.hpp with many producers
-- and one consumer, in the same way. The page allocator defers frees through one; Zone has a list
-- in its place. Its children are on the invariant, the steps of both sides and the order. A ring
-- is followed while fewer than 2 ^ 64 - 512 tickets have been taken, so that none has wrapped.
--
-- The heap. A KmemCache (kernel/src/memory/heap.cpp) cuts slabs, which are blocks of the page
-- allocator, into objects. A CPU allocates from the slab that it owns without a lock, and other
-- CPUs give objects of it back through a list in the slab. Heap models the slabs, CPUs and nodes
-- of one cache: Heap.System has the step relation, in which a compare-and-swap or a section under
-- a node lock is a step and a CPU that has let go of a slab publishes it later; Heap.Calls has
-- `alloc`, `refill` and `free` as a whole; Heap.Places has the invariant, by the place of each
-- slab. Heap.Create, Heap.Destroy, Heap.Sizes and Heap.Layout model `create`, `destroy`, the size
-- classes and orders, with what `kmalloc` takes, and the addresses of objects; Heap.Composed puts
-- them together. The page allocator is a parameter there. `slab_order_for` has 20 and 3 rounds
-- for its loops, which a 32-bit size and the order 3 bound. The lists threaded through objects
-- and descriptors are lists of indices and of frame numbers.
--
-- Klib models klib/src/stdlib:
--   * Klib.Qsort models `qsort` of qsort.cpp, an introsort with an insertion sort behind it, for
--     any comparison function. Its children are on exchanges, the heap sort, the partition and the
--     order.
--   * Klib.Bsearch models `bsearch` of bsearch.cpp.
--   * Klib.Strtol models `strtoX` of strtol.cpp, for both signs of `long`, and `atoX` of
--     atoi.cpp.
--
-- Base holds what the others share: Boolean tests, lists over native numbers, words and integers.
--
-- Bounds. The loops are recursions on what they walk over: a list, a tree, its frames, or a
-- counter. The merge loop runs on the orders that are left below MAX_ORDER and the split on the
-- orders between the block found and the one asked for, so neither needs fuel. `find_latest` and
-- the refill and drain loops run on their own budgets. The loops of `qsort` and `bsearch` have a
-- bound of about the number of elements, and would give nothing if it ran out; the scans of
-- `partition` run on the places that are left between them. The lock is for fewer than 2 ^ 23
-- threads, so that the count of readers has room in the 32 bits of the word.
--
-- Not modelled. Outside Heap, Locks, Scheduler and RingBuffer every operation is one step, with
-- its lock held, and the deferred ring is a list of at most 512. In those four the atomic
-- accesses have one order that all threads see, whatever memory order they name. Places in an
-- array are numbers without bound, since an array lies in memory; the bytes of its elements are
-- not kept. A zone is taken by itself: other zones do not change the descriptors in between. The
-- heap has one cache: a frame that has gone back to the page allocator keeps its descriptor until
-- the cache gets it again, so what a CPU that has yet to discard it sees when another cache has
-- got it instead is left out. The unused links of descriptors and nodes are not kept. An
-- assertion that fails is `none`. What wakes a daemon or asks for a reschedule is returned as a
-- value. Of the heap, `initialize`, `kfree`, `krealloc` and the contents of objects, the choice
-- of a CPU and the timers of the scheduler, virtual memory, the other containers and locks, the
-- rest of klib, crypto, hal and drivers are not modelled.
pub mod Base
pub mod Avl
pub mod Eevdf
pub mod Zone
pub mod Heap
pub mod Pcp
pub mod RunQueue
pub mod NumaDomain
pub mod Locks
pub mod Klib
pub mod Scheduler
pub mod RingBuffer
