-- ===== src/Zone.antt =====
-- kernel/src/memory/pmm/mobility-zone.cpp, kernel/include/memory/pmm/mobility-zone.hpp,
-- free_area.hpp and page.hpp: one buddy allocator. A block is named by its first page frame number
-- and its order. A FreeArea is the list of its blocks, hottest first; the bitmap of active orders
-- is a function from orders to bits; the page descriptors, which all zones share, are a function
-- from frame numbers. What wakes a daemon is returned as a value. The deferred ring is a list,
-- oldest first. Everything here runs with the zone's lock held.
pub mod Measure
pub mod Sound
pub mod Conserve
pub mod Disjoint
pub mod Locked
pub mod Steal
pub mod Cached
pub mod Boot
mod Tests
use erebus.Base.{
  ℕ, zero, suc, ◌+◌, ◌-◌, ◌*◌, ◌/◌, ◌%◌, ◌^◌, min, Bool, true, false, not, ◌&&◌, Option, none, some,
  List, [], ◌∷◌, ◌++◌, leb, ltb, ◌==◌, if◌then◌else◌, add64, sub64, mul64, length,
}

pub data PageState : Type 0 where
  active standby modified free zeroed bad : PageState

abbrev pub is_free : PageState → Bool
is_free PageState.free = true
is_free _ = false

-- The fields of a descriptor that the buddy allocator uses. A mobility is its number.
pub record Page : Type 0 where
  pub state : PageState
  pub mobility : ℕ
  pub order : ℕ
  pub numa_node : ℕ

pub record MobilityZone : Type 0 where
  pub active_orders : ℕ → Bool
  pub areas : ℕ → List ℕ
  pub total_free_pages : ℕ
  pub mobility : ℕ
  pub node_id : ℕ
  pub low_watermark : ℕ
  pub deferred_frees : List ℕ
  pub pages : ℕ → Page
  pub max_pfn : ℕ
  pub daemons_active : Bool

abbrev pub max_order : ℕ
max_order = 18

abbrev pub put : {A : Type 0} → (ℕ → A) → ℕ → A → ℕ → A
put f i a j = if i == j then a else f j

abbrev pub is_nil : List ℕ → Bool
is_nil [] = true
is_nil (x ∷ xs) = false

-- `FreeArea::remove` of a block that is in the area.
unfoldable pub remove : ℕ → List ℕ → List ℕ
remove b [] = []
remove b (x ∷ xs) = if x == b then xs else x ∷ remove b xs

-- The frame number that differs from `pfn` in bit `order`, `pfn ^ (1ul << order)`.
unfoldable pub buddy_of : ℕ → ℕ → ℕ
buddy_of pfn order = if pfn / 2 ^ order % 2 == 0 then pfn + 2 ^ order else pfn - 2 ^ order

-- `setup_buddy_metadata(Free, ...)`, `push_hot` and `set_order_active` of a block.
unfoldable pub give_back : MobilityZone → ℕ → ℕ → MobilityZone
give_back z pfn order = record z {
  pages = put z.pages pfn (record {
    state = PageState.free;
    mobility = z.mobility;
    order = order;
    numa_node = z.node_id;
  });
  areas = put z.areas order (pfn ∷ z.areas order);
  active_orders = put z.active_orders order true;
}

-- The conditions on which a buddy is merged with.
unfoldable pub can_merge : MobilityZone → ℕ → ℕ → Bool
can_merge z buddy order =
    ltb buddy z.max_pfn
    && is_free (z.pages buddy).state
    && (z.pages buddy).order == order
    && (z.pages buddy).mobility == z.mobility
    && (z.pages buddy).numa_node == z.node_id

abbrev pub set_state : Page → PageState → Page
set_state p s = record p { state = s }

-- The buddy leaves its area and is no longer a block head.
unfoldable pub take_buddy : MobilityZone → ℕ → ℕ → MobilityZone
unfolding remove
take_buddy z buddy order =
    let rest = remove buddy (z.areas order) in
    record z {
      areas = put z.areas order rest;
      active_orders = if is_nil rest then put z.active_orders order false else z.active_orders;
      pages = put z.pages buddy (set_state (z.pages buddy) PageState.active);
    }

-- The loop of `buddy_merge_internal`, over the orders that are left below MAX_ORDER.
unfoldable pub merge_from : ℕ → MobilityZone → ℕ → ℕ → MobilityZone
unfolding give_back can_merge take_buddy buddy_of
merge_from zero z pfn order = give_back z pfn order
merge_from (suc k) z pfn order = elim (can_merge z (buddy_of pfn order) order) [
  | true ↦
      merge_from k (take_buddy z (buddy_of pfn order) order) (min pfn (buddy_of pfn order))
        (suc order)
  | false ↦ give_back z pfn order
]

unfoldable pub buddy_merge : MobilityZone → ℕ → ℕ → MobilityZone
unfolding merge_from
buddy_merge z pfn order = merge_from (max_order - order) z pfn order

-- The lowest active order from `order` on: `countr_zero` of the bitmap without the bits below.
unfoldable pub lowest_active : ℕ → (ℕ → Bool) → ℕ → Option ℕ
lowest_active zero bits order = none
lowest_active (suc k) bits order =
    let above = lowest_active k bits (suc order) in if bits order then some order else above

-- The loop that splits: keep the lower half, give the upper half back.
unfoldable pub split_down : ℕ → MobilityZone → ℕ → ℕ → MobilityZone
unfolding give_back
split_down zero z pfn requested = z
split_down (suc k) z pfn requested =
    split_down k (give_back z (pfn + 2 ^ (requested + k)) (requested + k)) pfn requested

-- `pop_hot`, with the bit of an order that it empties.
unfoldable pub pop_hot : MobilityZone → ℕ → List ℕ → MobilityZone
pop_hot z order rest = record z {
  areas = put z.areas order rest;
  active_orders = if is_nil rest then put z.active_orders order false else z.active_orders;
}

unfoldable pub mark_active : MobilityZone → ℕ → ℕ → MobilityZone
mark_active z pfn order = record z {
  pages = put z.pages pfn (record {
    state = PageState.active;
    mobility = z.mobility;
    order = order;
    numa_node = z.node_id;
  });
}

unfoldable pub set_active : MobilityZone → ℕ → MobilityZone
set_active z pfn = record z { pages = put z.pages pfn (set_state (z.pages pfn) PageState.active) }

-- The code reads the head of an area whose bit is set; that an area with its bit set is not empty
-- is part of the invariant.
unfoldable pub extract_block : MobilityZone → ℕ → MobilityZone × Option ℕ
unfolding lowest_active split_down pop_hot mark_active
extract_block z requested =
    elim (lowest_active (max_order + 1 - requested) z.active_orders requested) [
      | none ↦ (z, none)
      | some order ↦ elim (z.areas order) [
        | [] ↦ (z, none)
        | pfn ∷ rest ↦ (
          mark_active (split_down (order - requested) (pop_hot z order rest) pfn requested) pfn
              requested,
          some pfn,
        )
      ]
    ]

-- `flush_deferred_frees_internal`: the zone and the pages freed.
unfoldable pub flush_from : List ℕ → MobilityZone → ℕ → MobilityZone × ℕ
unfolding buddy_merge
flush_from [] z freed = (z, freed)
flush_from (p ∷ ps) z freed =
    flush_from ps (buddy_merge z p (z.pages p).order) (add64 freed (2 ^ (z.pages p).order))

abbrev pub add_free_pages : MobilityZone → ℕ → MobilityZone
add_free_pages z n = record z { total_free_pages = add64 z.total_free_pages n }

abbrev pub sub_free_pages : MobilityZone → ℕ → MobilityZone
sub_free_pages z n = record z { total_free_pages = sub64 z.total_free_pages (n % 2 ^ 64) }

unfoldable pub flush_deferred_frees : MobilityZone → MobilityZone
unfolding flush_from
flush_deferred_frees z =
    let (z', freed) = flush_from z.deferred_frees (record z { deferred_frees = [] }) 0 in
    add_free_pages z' freed

pub data Daemon : Type 0 where
  reclaim compaction : Daemon

unfoldable pub evaluate_watermarks : MobilityZone → ℕ → ℕ → Bool → Option Daemon
evaluate_watermarks z curr_free requested alloc_failed =
    if not z.daemons_active
    then none
    else if alloc_failed
    then if leb (2 ^ requested) curr_free then some compaction else some reclaim
    else if ltb curr_free z.low_watermark
    then some reclaim
    else none

-- The zone, the block's first frame, and the daemon that is woken.
unfoldable pub alloc_extracted :
    MobilityZone × Option ℕ → ℕ → MobilityZone × Option ℕ × Option Daemon
unfolding evaluate_watermarks
alloc_extracted (z, none) requested =
    (z, none, evaluate_watermarks z z.total_free_pages requested true)
alloc_extracted (z, some pfn) requested =
    let z' = sub_free_pages z (2 ^ requested) in
    (z', some pfn, evaluate_watermarks z z'.total_free_pages requested false)

unfoldable pub alloc_pages_locked : MobilityZone → ℕ → MobilityZone × Option ℕ × Option Daemon
unfolding flush_deferred_frees extract_block alloc_extracted
alloc_pages_locked z requested =
    alloc_extracted (extract_block (flush_deferred_frees z) requested) requested

unfoldable pub free_page_locked : MobilityZone → ℕ → ℕ → MobilityZone
unfolding flush_deferred_frees buddy_merge
free_page_locked z pfn order =
    add_free_pages (buddy_merge (flush_deferred_frees z) pfn order) (2 ^ order)

-- The highest active order from `order` on: `bit_width - 1` of the bitmap without the bits below.
unfoldable pub highest_active : ℕ → (ℕ → Bool) → ℕ → Option ℕ
highest_active zero bits order = none
highest_active (suc k) bits order =
    if bits (order + k) then some (order + k) else highest_active k bits order

unfoldable pub extract_largest_block_for_steal : MobilityZone → ℕ → MobilityZone × Option (ℕ × ℕ)
unfolding flush_deferred_frees highest_active pop_hot set_active
extract_largest_block_for_steal z₀ min_order =
    let z = flush_deferred_frees z₀ in
    elim (highest_active (max_order + 1 - min_order) z.active_orders min_order) [
      | none ↦ (z, none)
      | some order ↦ elim (z.areas order) [
        | [] ↦ (z, none)
        | pfn ∷ rest ↦
            (sub_free_pages (set_active (pop_hot z order rest) pfn) (2 ^ order), some (pfn, order))
      ]
    ]

unfoldable pub adopt_stolen_block : MobilityZone → ℕ → ℕ → ℕ → MobilityZone
unfolding split_down mark_active
adopt_stolen_block z pfn block_order requested =
    add_free_pages
      (mark_active (split_down (block_order - requested) z pfn requested) pfn requested)
      (2 ^ block_order - 2 ^ requested)

unfoldable pub calculate_fragmentation_index : MobilityZone → ℕ
calculate_fragmentation_index z =
    let superpage_pages = mul64 (length (z.areas max_order)) (2 ^ max_order) in
    if z.total_free_pages == 0
    then 0
    else if leb z.total_free_pages superpage_pages
    then 0
    else 100 - mul64 superpage_pages 100 / z.total_free_pages
