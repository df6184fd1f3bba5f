-- ===== src/Heap/Calls.antt =====
-- kernel/src/memory/heap.cpp: `alloc`, `refill` and `free` as a whole, when nothing interrupts them. The
-- page allocator is a parameter: from the slabs that the cache has, whether it gives out a block and
-- which.
use erebus.Base.{ℕ, Bool, false, ◌==◌, if◌then◌else◌, List, [], ◌∷◌, Option, none, some, ◌≡◌}
use erebus.Base.Family.{put}
use erebus.Heap.{Slab, CpuCache, KmemCache, put_cpu, alloc_local, claim_remote_objects}
use erebus.Heap.Nodes.{pop_from_node_partial}
use erebus.Heap.System.{
  System, Task, idle, publishing, discarding, occurs, hand_out, claim_step, claim_partial_step,
  deactivate_step, publish_step, discard_step, pop_kept_step, pop_node_step, fresh_step,
  free_local_step, free_remote_step, Reach,
}

pub data Outcome : Type 0 where
  obtained : (s obj : ℕ) → System → Outcome
  out_of_memory : System → Outcome
  fatal : Outcome

abbrev pub is_page : Option ℕ → ℕ → Bool
is_page none s = false
is_page (some p) s = p == s

module _ (node_of : ℕ → ℕ) (total node : ℕ) (pages : (ℕ → Bool) → Option ℕ) where
  -- What is left to do after a compare-and-swap.
  abbrev pub settle_task : System → ℕ → Task → System
  settle_task y c (publishing s) = publish_step node_of y c s
  settle_task y c (discarding s) = discard_step node_of y c s
  settle_task y c _ = y

  abbrev pub settle : System → ℕ → System
  settle y c = settle_task y c (y.tasks c)

  abbrev pub take_fresh : System → ℕ → Option ℕ → Outcome
  take_fresh y c none = out_of_memory y
  take_fresh y c (some s) = obtained s 0 (fresh_step total y c s)

  abbrev pub claim_popped : System → ℕ → ℕ → Option (ℕ × CpuCache × Slab) → Outcome
  claim_popped y c s none = fatal
  claim_popped y c s (some (obj, k, sl)) = obtained s obj (claim_partial_step y c s obj k sl)

  abbrev pub take_popped : System → ℕ → ℕ → Outcome
  take_popped y c s = claim_popped y c s (claim_remote_objects (y.cache.cpus c) (y.cache.slabs s))

  abbrev pub take_node : System → ℕ → Option (ℕ × KmemCache) → Outcome
  take_node y c none = take_fresh y c (pages y.given)
  take_node y c (some (s, m)) = take_popped (pop_node_step y c s m) c s

  abbrev pub take_partial : System → ℕ → List ℕ → Outcome
  take_partial y c [] = take_node y c (pop_from_node_partial y.cache node)
  take_partial y c (s ∷ rest) = take_popped (pop_kept_step y c s rest) c s

  abbrev pub take_new : System → ℕ → Outcome
  take_new y c = take_partial y c (y.cache.cpus c).cpu_partial

  abbrev pub claim_active : System → ℕ → ℕ → Option (ℕ × CpuCache × Slab) → Outcome
  claim_active y c s none = take_new (settle (deactivate_step y c s) c) c
  claim_active y c s (some (obj, k, sl)) = obtained s obj (claim_step y c s obj k sl)

  abbrev pub refill_page : System → ℕ → Option ℕ → Outcome
  refill_page y c none = take_new y c
  refill_page y c (some s) =
      claim_active y c s (claim_remote_objects (y.cache.cpus c) (y.cache.slabs s))

  unfoldable pub refill : System → ℕ → Outcome
  refill y c = refill_page y c (y.cache.cpus c).page

  -- An object of the fast path is one of the active slab.
  abbrev pub take_local : System → ℕ → ℕ → CpuCache → Option ℕ → Outcome
  take_local y c obj k none = fatal
  take_local y c obj k (some s) = obtained s obj (hand_out y s obj (put_cpu y.cache c k))

  abbrev pub alloc_with : System → ℕ → Option (ℕ × CpuCache) → Outcome
  unfolding refill
  alloc_with y c none = refill y c
  alloc_with y c (some (obj, k)) = take_local y c obj k (y.cache.cpus c).page

  unfoldable pub alloc : System → ℕ → Outcome
  alloc y c = alloc_with y c (alloc_local (y.cache.cpus c))

  unfoldable pub free : System → ℕ → ℕ → ℕ → System
  free y c s obj =
      if is_page (y.cache.cpus c).page s
      then free_local_step y c s obj
      else settle (free_remote_step y c s obj) c

  -- What an allocation by CPU `c` comes to: an object that callers did not hold, with nothing else
  -- handed out, or no memory and no block from the page allocator.
  unfoldable pub Allocated : System → ℕ → Outcome → Type 0
  Allocated y c (obtained s obj z) =
      Reach node_of total z
      × ((occurs obj (y.live s) ≡ 0)
          × ((z.live ≡ put y.live s (obj ∷ y.live s)) × (z.tasks c ≡ idle)))
  Allocated y c (out_of_memory z) =
      Reach node_of total z × ((pages z.given ≡ none) × ((z.live ≡ y.live) × (z.tasks c ≡ idle)))
  Allocated y c fatal = ⊥
