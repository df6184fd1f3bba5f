-- ===== src/Heap.antt =====
-- kernel/src/memory/heap.cpp, kernel/include/memory/heap.hpp: the slabs of one `KmemCache` and what
-- its CPUs and nodes keep of them. A slab is named by the number of its head frame and an object by its
-- index in the slab; a list threaded through free objects or descriptors is the list of what is on it.
-- A compare-and-swap loop is the update of its last round.
pub mod Nodes
pub mod System
pub mod Places
pub mod Lists
pub mod Updates
pub mod Taken
pub mod Allocs
pub mod Freed
pub mod Frees
pub mod Deactivate
pub mod Partials
pub mod Pops
pub mod Safety
pub mod Calls
pub mod Outcomes
pub mod Returned
pub mod Sizes
pub mod Layout
pub mod Create
pub mod Destroy
pub mod Composed
mod Tests
use erebus.Base.{
  ℕ, zero, suc, ◌+◌, ◌-◌, ◌%◌, ◌^◌, Bool, true, false, ◌==◌, ltb, ◌&&◌, if◌then◌else◌, Option, none,
  some, List, [], ◌∷◌, ◌++◌, length,
}
use erebus.Base.Family.{put}

abbrev pub add16 : ℕ → ℕ → ℕ
add16 a b = (a + b) % 2 ^ 16

abbrev pub sub16 : ℕ → ℕ → ℕ
sub16 a b = (a + 2 ^ 16 - b) % 2 ^ 16

abbrev pub max_cpu_partial : ℕ
max_cpu_partial = 4

-- `SlabState`, with the remote free list that its head index leads to, and `on_node_list`.
pub record Slab : Type 0 where
  pub remote : List ℕ
  pub in_use : ℕ
  pub frozen : Bool
  pub total : ℕ
  pub generation : ℕ
  pub on_node_list : Bool

-- `bump` is the index of the object that `bump_ptr` leads to.
pub record CpuCache : Type 0 where
  pub local_freelist : List ℕ
  pub bump : ℕ
  pub bump_left : ℕ
  pub partial_count : ℕ
  pub page : Option ℕ
  pub cpu_partial : List ℕ

pub record NodeCache : Type 0 where
  pub num_partial : ℕ
  pub partial : List ℕ

pub record KmemCache : Type 0 where
  pub slabs : ℕ → Slab
  pub cpus : ℕ → CpuCache
  pub nodes : ℕ → NodeCache

abbrev pub put_slab : KmemCache → ℕ → Slab → KmemCache
put_slab m s sl = record m { slabs = put m.slabs s sl }

abbrev pub put_cpu : KmemCache → ℕ → CpuCache → KmemCache
put_cpu m c k = record m { cpus = put m.cpus c k }

abbrev pub put_node : KmemCache → ℕ → NodeCache → KmemCache
put_node m n nd = record m { nodes = put m.nodes n nd }

-- `CpuCache::alloc`
abbrev pub bump_alloc : CpuCache → ℕ → Option (ℕ × CpuCache)
bump_alloc k zero = none
bump_alloc k (suc left) = some (k.bump, record k { bump = k.bump + 1; bump_left = left })

unfoldable pub alloc_local : CpuCache → Option (ℕ × CpuCache)
alloc_local k = elim k.local_freelist [
  | [] ↦ bump_alloc k k.bump_left
  | obj ∷ rest ↦ some (obj, record k { local_freelist = rest })
]

abbrev pub claimed : Slab → Slab
claimed sl = record sl {
  remote = [];
  in_use = sl.total;
  frozen = true;
  generation = add16 sl.generation 1;
}

abbrev pub claim_list : CpuCache → Slab → List ℕ → Option (ℕ × CpuCache × Slab)
claim_list k sl [] = none
claim_list k sl (obj ∷ rest) = some (obj, record k { local_freelist = rest }, claimed sl)

unfoldable pub claim_remote_objects : CpuCache → Slab → Option (ℕ × CpuCache × Slab)
claim_remote_objects k sl = claim_list k sl sl.remote

-- The state that `new_slab` stores, for a slab with room for `total` objects.
abbrev pub new_slab : ℕ → Slab
new_slab total = record {
  remote = [];
  in_use = total;
  frozen = true;
  total = total;
  generation = 0;
  on_node_list = false;
}

-- The end of `refill`, which takes the first object of a new slab.
abbrev pub start_slab : CpuCache → ℕ → ℕ → CpuCache
start_slab k s total = record k {
  page = some s;
  local_freelist = [];
  bump = 1;
  bump_left = total - 1;
}

-- What `refill` does to the CPU once it has claimed the objects of a partial slab.
abbrev pub start_partial : CpuCache → ℕ → CpuCache
start_partial k s = record k { page = some s; bump = 0; bump_left = 0 }

-- `free` on the CPU's own active slab, and the compare-and-swap of `free` on another slab.
abbrev pub free_local : CpuCache → ℕ → CpuCache
free_local k obj = record k { local_freelist = obj ∷ k.local_freelist }

abbrev pub free_remote : Slab → ℕ → Slab
free_remote sl obj = record sl {
  remote = obj ∷ sl.remote;
  in_use = sub16 sl.in_use 1;
  generation = add16 sl.generation 1;
}

-- What a free leaves to do: nothing, or to publish or to discard the slab.
pub data After : Type 0 where
  done publishes discards : After

unfoldable pub after_free : Slab → Slab → After
after_free old new =
    if new.frozen
    then done
    else if old.in_use == old.total
    then publishes
    else if new.in_use == 0
    then discards
    else done

-- The objects of the bump region.
abbrev pub bumped : ℕ → ℕ → List ℕ
bumped b zero = []
bumped b (suc left) = b ∷ bumped (b + 1) left

-- The chain of `deactivate_slab`, which is all the free objects that the CPU owns.
abbrev pub chain : CpuCache → List ℕ
chain k = k.local_freelist ++ bumped k.bump k.bump_left

abbrev pub left_in_use : CpuCache → Slab → ℕ
left_in_use k sl = sub16 sl.in_use (length (chain k) % 2 ^ 16)

abbrev pub to_cpu_partial : CpuCache → Slab → Bool
to_cpu_partial k sl =
    ltb 0 (left_in_use k sl)
    && (ltb (left_in_use k sl) sl.total && ltb k.partial_count max_cpu_partial)

abbrev pub deactivated : CpuCache → Slab → Slab
deactivated k sl = record sl {
  remote = chain k ++ sl.remote;
  in_use = left_in_use k sl;
  frozen = to_cpu_partial k sl;
  generation = add16 sl.generation 1;
}

abbrev pub released_cpu : CpuCache → CpuCache
released_cpu k = record k { page = none; local_freelist = []; bump = 0; bump_left = 0 }

abbrev pub keep_partial : CpuCache → ℕ → CpuCache
keep_partial k s = record k {
  cpu_partial = s ∷ k.cpu_partial;
  partial_count = (k.partial_count + 1) % 2 ^ 8;
}

unfoldable pub after_deactivate : CpuCache → Slab → After
after_deactivate k sl =
    if to_cpu_partial k sl
    then done
    else if ltb (left_in_use k sl) sl.total
    then publishes
    else done

-- `deactivate_slab` up to `publish_partial`, with what the CPU has to do to the slab then.
unfoldable pub deactivate_slab : KmemCache → ℕ → ℕ → KmemCache
deactivate_slab m c s =
    let k = m.cpus c in
    let sl = m.slabs s in
    let freed = released_cpu k in
    put_slab (put_cpu m c (if to_cpu_partial k sl then keep_partial freed s else freed)) s
      (deactivated k sl)

-- The first half of a pop from the CPU's own partial list.
abbrev pub drop_kept : CpuCache → List ℕ → CpuCache
drop_kept k rest = record k {
  cpu_partial = rest;
  partial_count = (k.partial_count + 2 ^ 8 - 1) % 2 ^ 8;
}
