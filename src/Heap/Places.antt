-- ===== src/Heap/Places.antt =====
-- kernel/src/memory/heap.cpp: the places where a slab may be, and the invariant.
use erebus.Base.{
  ℕ, ◌+◌, ◌≤◌, ◌<◌, ◌%◌, ◌^◌, Bool, true, false, ◌==◌, if◌then◌else◌, none, some, List, [], length,
  ◌≡◌, ltb,
}
use erebus.Heap.{Slab, CpuCache, NodeCache, chain, max_cpu_partial}
use erebus.Heap.System.{System, Task, publishing, claiming, occurs}

-- With the PMM; a CPU's active slab; on a CPU's partial list; about to be published by a CPU; popped
-- by a CPU; on the list of a node; with every object in use and on no list.
pub data Place : Type 0 where
  in_pmm full : Place
  active kept published held listed : ℕ → Place

abbrev pub is_given : Place → Bool
is_given in_pmm = false
is_given _ = true

abbrev pub is_listed : Place → Bool
is_listed (listed n) = true
is_listed _ = false

abbrev pub kept_at : ℕ → Place → ℕ
kept_at c (kept d) = if c == d then 1 else 0
kept_at c _ = 0

abbrev pub listed_at : ℕ → Place → ℕ
listed_at n (listed k) = if n == k then 1 else 0
listed_at n _ = 0

-- The free objects that the CPU owns which has the slab.
abbrev pub owned : (ℕ → CpuCache) → Place → List ℕ
owned cpus (active c) = chain (cpus c)
owned cpus _ = []

-- What the state word says at each place.
abbrev pub Status : ℕ → Place → (frozen : Bool) → (in_use total : ℕ) → Type 0
Status node in_pmm frozen in_use total = Unit
Status node (active c) frozen in_use total = frozen ≡ true
Status node (kept c) frozen in_use total = (frozen ≡ true) × (in_use < total)
Status node (published c) frozen in_use total = (frozen ≡ false) × (in_use < total)
Status node (held c) frozen in_use total = in_use < total
Status node (listed n) frozen in_use total = (frozen ≡ false) × ((in_use < total) × (n ≡ node))
Status node full frozen in_use total = (frozen ≡ false) × (in_use ≡ total)

-- Each object is in exactly one place, and the state word counts those off the remote list.
pub record Filled (total : ℕ) (sl : Slab) (live own : List ℕ) : Type 0 where
  pub once :
      (i : ℕ) → occurs i sl.remote + (occurs i own + occurs i live) ≡ (if ltb i total then 1 else 0)
  pub sum : length sl.remote + (length own + length live) ≡ total
  pub counted : sl.in_use + length sl.remote ≡ total
  pub size : sl.total ≡ total

pub record SlabInv (node total : ℕ) (sl : Slab) (live : List ℕ) (given : Bool) (p : Place)
    (own : List ℕ) : Type 0 where
  pub here : given ≡ is_given p
  pub flag : sl.on_node_list ≡ is_listed p
  pub nothing : given ≡ false → live ≡ []
  pub filled : given ≡ true → Filled total sl live own
  pub status : Status node p sl.frozen sl.in_use total

pub record CpuInv (place : ℕ → Place) (c : ℕ) (k : CpuCache) (task : Task) : Type 0 where
  pub page_active : (s : ℕ) → k.page ≡ some s → place s ≡ active c
  pub active_page : (s : ℕ) → place s ≡ active c → k.page ≡ some s
  pub no_page : k.page ≡ none → chain k ≡ []
  pub on_kept : (s : ℕ) → occurs s k.cpu_partial ≡ kept_at c (place s)
  pub kept_count : (k.partial_count ≡ length k.cpu_partial) × (k.partial_count ≤ max_cpu_partial)
  pub to_publish : (s : ℕ) → task ≡ publishing s → place s ≡ published c
  pub to_claim : (s : ℕ) → task ≡ claiming s → (place s ≡ held c) × (k.page ≡ none)

pub record NodeInv (place : ℕ → Place) (n : ℕ) (nd : NodeCache) : Type 0 where
  pub on_listed : (s : ℕ) → occurs s nd.partial ≡ listed_at n (place s)
  pub listed_count : nd.num_partial ≡ length nd.partial % 2 ^ 32

pub record Inv (node_of : ℕ → ℕ) (total : ℕ) (place : ℕ → Place) (y : System) : Type 0 where
  pub slab :
      (s : ℕ)
      → SlabInv
          (node_of s)
          total
          (y.cache.slabs s)
          (y.live s)
          (y.given s)
          (place s)
          (owned y.cache.cpus (place s))
  pub cpu : (c : ℕ) → CpuInv place c (y.cache.cpus c) (y.tasks c)
  pub node : (n : ℕ) → NodeInv place n (y.cache.nodes n)
