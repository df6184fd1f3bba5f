-- ===== src/Heap/System.antt =====
-- kernel/src/memory/heap.cpp: the CPUs that allocate from one cache and free to it at the same time. A
-- step is what one CPU does up to its next compare-and-swap or under a node lock. A CPU that has to
-- publish or to discard a slab, or that has popped one, does that before anything else, since
-- interrupts are off; `alloc` and `free` call these steps in the orders that the task allows.
-- There is one cache. A slab that has gone back to the PMM keeps its state here until the cache gets
-- it again; what a CPU that has yet to discard it sees if another cache has got the frame in between
-- is left out.
use erebus.Base.{
  ℕ, suc, Bool, true, false, ◌<◌, if◌then◌else◌, none, some, List, [], ◌∷◌, ◌==◌, ◌≡◌, ◌≢◌,
}
use erebus.Base.Family.{put}
use erebus.Heap.{
  Slab, CpuCache, KmemCache, put_slab, put_cpu, alloc_local, claim_remote_objects, new_slab,
  start_slab, start_partial, free_local, free_remote, After, done, publishes, discards, after_free,
  deactivate_slab, after_deactivate, drop_kept,
}
use erebus.Heap.Nodes.{
  remove_first, publish_releases, publish_partial, discard_releases, discard_if_empty,
  pop_from_node_partial,
}

pub data Task : Type 0 where
  idle : Task
  publishing discarding claiming : ℕ → Task

abbrev pub task_after : After → ℕ → Task
task_after done s = idle
task_after publishes s = publishing s
task_after discards s = discarding s

-- The objects that callers hold, by slab, and the slabs that the PMM has given to the cache.
pub record System : Type 0 where
  pub cache : KmemCache
  pub tasks : ℕ → Task
  pub live : ℕ → List ℕ
  pub given : ℕ → Bool

abbrev pub occurs : ℕ → List ℕ → ℕ
occurs i [] = 0
occurs i (x ∷ xs) = if i == x then suc (occurs i xs) else occurs i xs

abbrev pub hand_out : System → ℕ → ℕ → KmemCache → System
hand_out y s obj m = record y { cache = m; live = put y.live s (obj ∷ y.live s) }

abbrev pub take_back : System → ℕ → ℕ → KmemCache → System
take_back y s obj m = record y { cache = m; live = put y.live s (remove_first obj (y.live s)) }

abbrev pub set_task : System → ℕ → Task → System
set_task y c task = record y { tasks = put y.tasks c task }

abbrev pub set_given : System → ℕ → Bool → System
set_given y s b = record y { given = put y.given s b }

-- What the CPU does to the slab that it has let go of.
abbrev pub release_if : Bool → System → ℕ → System
release_if released y s = if released then set_given y s false else y

abbrev pub publish_step : (ℕ → ℕ) → System → ℕ → ℕ → System
publish_step node_of y c s =
    release_if (publish_releases node_of y.cache s)
      (set_task (record y { cache = publish_partial node_of y.cache s }) c idle) s

abbrev pub discard_step : (ℕ → ℕ) → System → ℕ → ℕ → System
discard_step node_of y c s =
    release_if (discard_releases node_of y.cache s)
      (set_task (record y { cache = discard_if_empty node_of y.cache s }) c idle) s

abbrev pub deactivate_step : System → ℕ → ℕ → System
deactivate_step y c s =
    set_task (record y { cache = deactivate_slab y.cache c s }) c
      (task_after (after_deactivate (y.cache.cpus c) (y.cache.slabs s)) s)

abbrev pub pop_kept_step : System → ℕ → ℕ → List ℕ → System
pop_kept_step y c s rest =
    set_task (record y { cache = put_cpu y.cache c (drop_kept (y.cache.cpus c) rest) }) c
      (claiming s)

abbrev pub pop_node_step : System → ℕ → ℕ → KmemCache → System
pop_node_step y c s m = set_task (record y { cache = m }) c (claiming s)

abbrev pub claim_step : System → ℕ → ℕ → ℕ → CpuCache → Slab → System
claim_step y c s obj k sl = hand_out y s obj (put_slab (put_cpu y.cache c k) s sl)

abbrev pub claim_partial_step : System → ℕ → ℕ → ℕ → CpuCache → Slab → System
claim_partial_step y c s obj k sl = set_task (claim_step y c s obj (start_partial k s) sl) c idle

-- `new_slab` and the end of `refill`.
abbrev pub fresh_step : ℕ → System → ℕ → ℕ → System
fresh_step total y c s =
    set_given
      (hand_out y s 0
        (put_slab (put_cpu y.cache c (start_slab (y.cache.cpus c) s total)) s (new_slab total)))
      s true

abbrev pub free_local_step : System → ℕ → ℕ → ℕ → System
free_local_step y c s obj = take_back y s obj (put_cpu y.cache c (free_local (y.cache.cpus c) obj))

abbrev pub free_remote_step : System → ℕ → ℕ → ℕ → System
free_remote_step y c s obj =
    let old = y.cache.slabs s in
    let new = free_remote old obj in
    set_task (take_back y s obj (put_slab y.cache s new)) c (task_after (after_free old new) s)

-- Slabs of `total` objects. A caller frees an object that it holds, and the PMM gives out a block that
-- it has not given out before and not got back.
pub data Step (node_of : ℕ → ℕ) (total : ℕ) (y : System) : System → Type 0 where
  allocate :
      {c s obj : ℕ} {k : CpuCache}
      → y.tasks c ≡ idle
      → (y.cache.cpus c).page ≡ some s
      → alloc_local (y.cache.cpus c) ≡ some (obj, k)
      → Step node_of total y (hand_out y s obj (put_cpu y.cache c k))
  claim :
      {c s obj : ℕ} {k : CpuCache} {sl : Slab}
      → y.tasks c ≡ idle
      → (y.cache.cpus c).page ≡ some s
      → alloc_local (y.cache.cpus c) ≡ none
      → claim_remote_objects (y.cache.cpus c) (y.cache.slabs s) ≡ some (obj, k, sl)
      → Step node_of total y (claim_step y c s obj k sl)
  deactivate :
      {c s : ℕ}
      → y.tasks c ≡ idle
      → (y.cache.cpus c).page ≡ some s
      → Step node_of total y (deactivate_step y c s)
  publish : {c s : ℕ} → y.tasks c ≡ publishing s → Step node_of total y (publish_step node_of y c s)
  discard : {c s : ℕ} → y.tasks c ≡ discarding s → Step node_of total y (discard_step node_of y c s)
  pop_kept :
      {c s : ℕ} {rest : List ℕ}
      → y.tasks c ≡ idle
      → (y.cache.cpus c).page ≡ none
      → (y.cache.cpus c).cpu_partial ≡ s ∷ rest
      → Step node_of total y (pop_kept_step y c s rest)
  pop_node :
      {c s : ℕ} (n : ℕ) {m : KmemCache}
      → y.tasks c ≡ idle
      → (y.cache.cpus c).page ≡ none
      → pop_from_node_partial y.cache n ≡ some (s, m)
      → Step node_of total y (pop_node_step y c s m)
  claim_partial :
      {c s obj : ℕ} {k : CpuCache} {sl : Slab}
      → y.tasks c ≡ claiming s
      → claim_remote_objects (y.cache.cpus c) (y.cache.slabs s) ≡ some (obj, k, sl)
      → Step node_of total y (claim_partial_step y c s obj k sl)
  fresh :
      {c s : ℕ}
      → y.tasks c ≡ idle
      → (y.cache.cpus c).page ≡ none
      → y.given s ≡ false
      → Step node_of total y (fresh_step total y c s)
  give_back :
      {c s : ℕ} (obj : ℕ)
      → y.tasks c ≡ idle
      → (y.cache.cpus c).page ≡ some s
      → 0 < occurs obj (y.live s)
      → Step node_of total y (free_local_step y c s obj)
  give_back_remote :
      {c s : ℕ} (obj : ℕ)
      → y.tasks c ≡ idle
      → (y.cache.cpus c).page ≢ some s
      → 0 < occurs obj (y.live s)
      → Step node_of total y (free_remote_step y c s obj)

abbrev pub empty_cpu : CpuCache
empty_cpu = record {
  local_freelist = [];
  bump = 0;
  bump_left = 0;
  partial_count = 0;
  page = none;
  cpu_partial = [];
}

-- The cache that `create` makes.
abbrev pub start_system : System
start_system = record {
  cache = record {
    slabs = λ s. record (new_slab 0) { frozen = false };
    cpus = λ c. empty_cpu;
    nodes = λ n. record { num_partial = 0; partial = [] };
  };
  tasks = λ c. idle;
  live = λ s. [];
  given = λ s. false;
}

pub data Reach (node_of : ℕ → ℕ) (total : ℕ) : System → Type 0 where
  start : Reach node_of total start_system
  later : {y z : System} → Reach node_of total y → Step node_of total y z → Reach node_of total z
