-- ===== src/Zone/Cached.antt =====
-- kernel/src/memory/pmm/mobility-zone.cpp: the allocation and the free of a block through the list
-- of the CPU that runs them. The list is the one of the block's order; `attached` says whether the
-- zone has per-CPU caches, `local` whether the CPU is on the zone's node.
pub mod Keeps
pub mod Paths
mod Tests
use erebus.Base.{
  ℕ, zero, suc, ◌+◌, ◌*◌, ◌%◌, ◌^◌, min, Bool, true, false, not, ◌||◌, Option, none, some, ◌∷◌,
  ◌++◌, [], ltb, ◌==◌, if◌then◌else◌, length, sub64,
}
use erebus.Pcp.{PcpList, push_hot, pop_cold, needs_drain}
use erebus.Pcp
use erebus.Zone.{
  MobilityZone, Page, Daemon, put, extract_block, buddy_merge, flush_deferred_frees, add_free_pages,
  sub_free_pages, evaluate_watermarks, alloc_pages_locked, free_page_locked,
}

abbrev pub pcp_max_order : ℕ
pcp_max_order = 3

abbrev pub deferred_capacity : ℕ
deferred_capacity = 512

-- The loop of `batch_refill_pcp`, with the number of blocks it has moved.
unfoldable pub refill_from : ℕ → MobilityZone → PcpList → ℕ → ℕ → MobilityZone × PcpList × ℕ
unfolding extract_block push_hot
refill_from zero z l order refilled = (z, l, refilled)
refill_from (suc k) z l order refilled =
    let (z', block) = extract_block z order in
    elim block [
      | none ↦ (z', l, refilled)
      | some p ↦ refill_from k z' (push_hot l p) order (suc refilled)
    ]

unfoldable pub refilled_pcp :
    MobilityZone × PcpList × ℕ → ℕ → MobilityZone × PcpList × Bool × Option Daemon
unfolding evaluate_watermarks
refilled_pcp (z, l, zero) order = (z, l, false, evaluate_watermarks z z.total_free_pages order true)
refilled_pcp (z, l, suc n) order =
    let z' = sub_free_pages z (suc n * 2 ^ order) in
    (z', l, true, evaluate_watermarks z z'.total_free_pages order false)

unfoldable pub batch_refill_pcp :
    MobilityZone → PcpList → ℕ → MobilityZone × PcpList × Bool × Option Daemon
unfolding flush_deferred_frees refill_from refilled_pcp
batch_refill_pcp z l order =
    refilled_pcp (refill_from l.batch (flush_deferred_frees z) l order 0) order

-- The loop of `batch_drain_pcp`. It runs no further than the list has blocks.
unfoldable pub drain_from : ℕ → MobilityZone → PcpList → ℕ → MobilityZone × PcpList
unfolding buddy_merge pop_cold
drain_from zero z l order = (z, l)
drain_from (suc k) z l order =
    let (l', block) = pop_cold l in
    elim block [ none ↦ (z, l') | some p ↦ drain_from k (buddy_merge z p order) l' order ]

unfoldable pub batch_drain_pcp : MobilityZone → PcpList → ℕ → MobilityZone × PcpList
unfolding flush_deferred_frees drain_from
batch_drain_pcp z l order =
    let count = min l.batch l.count in
    let (z', l') = drain_from count (flush_deferred_frees z) l order in
    (add_free_pages z' (count * 2 ^ order), l')

abbrev pub popped : MobilityZone → PcpList × Option ℕ → MobilityZone × PcpList × Option ℕ
popped z (l, p) = (z, l, p)

unfoldable pub alloc_refilled :
    MobilityZone × PcpList × Bool × Option Daemon → MobilityZone × PcpList × Option ℕ
unfolding Pcp.pop_hot
alloc_refilled (z, l, true, daemon) = popped z (Pcp.pop_hot l)
alloc_refilled (z, l, false, daemon) = (z, l, none)

unfoldable pub alloc_pages : Bool → MobilityZone → PcpList → ℕ → MobilityZone × PcpList × Option ℕ
unfolding alloc_pages_locked batch_refill_pcp alloc_refilled Pcp.pop_hot
alloc_pages attached z l order =
    if ltb pcp_max_order order || not attached
    then (let r = alloc_pages_locked z order in (r.0, l, r.1))
    else if l.count == 0
    then alloc_refilled (batch_refill_pcp z l order)
    else popped z (Pcp.pop_hot l)

-- The order travels in the descriptor of a block that is deferred.
unfoldable pub set_order : MobilityZone → ℕ → ℕ → MobilityZone
set_order z pfn order = record z {
  pages = put z.pages pfn (record (z.pages pfn) { order = order });
}

unfoldable pub free_page : Bool → Bool → MobilityZone → PcpList → ℕ → ℕ → MobilityZone × PcpList
unfolding free_page_locked set_order batch_drain_pcp push_hot
free_page attached local z l pfn order =
    if not local
    then (let tagged = set_order z pfn order in
        if ltb (length z.deferred_frees) deferred_capacity
        then (record tagged { deferred_frees = z.deferred_frees ++ (pfn ∷ []) }, l)
        else (free_page_locked tagged pfn order, l))
    else if ltb pcp_max_order order || not attached
    then (free_page_locked z pfn order, l)
    else (let (z', l') = if needs_drain l then batch_drain_pcp z l order else (z, l) in
        (z', push_hot l' pfn))
