-- ===== src/Heap/Tests.antt =====
-- kernel/src/memory/heap.cpp: a cache with slabs of two objects and one node. CPU 0 takes a new slab and
-- both of its objects, CPU 1 gives both back.
use erebus.Base.{
  ℕ, ◌+◌, ◌*◌, ◌%◌, ◌^◌, ◌-◌, ◌<◌, ◌≤◌, Bool, true, false, Bool-cases, if◌then◌else◌, Option, none,
  some, List, [], ◌∷◌, length, ◌≡◌, refl, ap, subst, ◌⊎◌, inl, inr, arith,
}
use erebus.Base.Family.{put}
use erebus.Heap.{
  put_cpu, chain, claimed, claim_remote_objects, alloc_local, deactivate_slab, after_deactivate,
  put_slab, put_node,
}
use erebus.Heap.Nodes.{publish_partial, pop_from_node_partial, remove_first, drop_head, set_listed}
use erebus.Heap.System.{
  System, hand_out, allocate, idle, occurs, Reach, start, later, start_system, fresh, fresh_step,
  deactivate, deactivate_step, publish, publish_step, pop_node, pop_node_step, give_back,
  free_local_step,
}
use erebus.Heap.Taken.{get_or_else, claimed_cpu}
use erebus.Heap.Safety.{FromChain, live-IsUnique, active_lem, partial_lem, popped-claims}
use erebus.Heap.Calls.{alloc, free, Allocated}
use erebus.Heap.Returned.{IsReturned, free-IsReturned}
use erebus.Heap.Sizes.{
  slab_order_for, objects_per_slab, page_size, kmalloc_source, bytes, IsWell, has_single_bit, null,
}
use erebus.Heap.Sizes.Orders.{slab_order_for_lem}
use erebus.Heap.Sizes.Sources.{kmalloc_source_lem}
use erebus.Heap.Create.{create, IsSound, create-IsSound}
use erebus.Heap.Destroy.{
  release_if_unused, destroy_list, destroy_cpus, destroy_nodes, destroy, frees_cache, destroy_lem,
}
use erebus.Heap.Composed.{objects_of, created-Allocated}
use erebus.Heap.Layout.{slab_of, index_of, object_at, page_to_virt, slab_of-object_at}

abbrev one_node : ℕ → ℕ
one_node s = 0

-- The slab at frame 8 goes to CPU 0, with its first object to a caller.
abbrev started : System
started = fresh_step 2 start_system 0 8

started-Reach : Reach one_node 2 started
started-Reach = later start (fresh refl refl refl)

live-IsUnique_example :
    ((occurs 0 (started.live 8) ≡ 1) × (0 < 2))
    × ((started.given 8 ≡ true) × (occurs 0 (started.cache.slabs 8).remote ≡ 0))
live-IsUnique_example =
    live-IsUnique one_node 2 (omega arith) (omega arith) 8 0 started-Reach (omega arith)

active_lem_example :
    ((◌≡◌ {A = ℕ} 0 0) × ((started.cache.slabs 8).frozen ≡ true))
    × ((((started.cache.slabs 8).in_use
            ≡ length (chain (started.cache.cpus 0)) + length (started.live 8))
          × ((started.cache.slabs 8).in_use + length (started.cache.slabs 8).remote ≡ 2))
        × FromChain (started.cache.cpus 0) (started.live 8) (alloc_local (started.cache.cpus 0)))
active_lem_example = active_lem one_node 2 (omega arith) (omega arith) 0 8 0 started-Reach refl refl

-- The object comes back, CPU 0 lets the empty slab go and publishes it, and CPU 1 pops it.
abbrev returned : System
returned = free_local_step started 0 8 0

abbrev let_go : System
let_go = deactivate_step returned 0 8

abbrev published : System
published = publish_step one_node let_go 0 8

abbrev popped : System
popped = pop_node_step published 1 8 (
    put_slab (put_node published.cache 0 (drop_head (published.cache.nodes 0) [])) 8
      (set_listed (published.cache.slabs 8) false))

published-Reach : Reach one_node 2 published
unfolding deactivate_slab after_deactivate publish_partial
published-Reach =
    later
      (later (later started-Reach (give_back {c = 0} {s = 8} 0 refl refl (omega arith)))
        (deactivate {c = 0} {s = 8} refl refl))
      (publish {c = 0} {s = 8} refl)

popped-Reach : Reach one_node 2 popped
unfolding deactivate_slab after_deactivate publish_partial pop_from_node_partial
popped-Reach = later published-Reach (pop_node 0 refl refl refl)

partial_lem_example :
    ((occurs 8 (published.cache.nodes 0).partial ≡ 1) × (◌≡◌ {A = ℕ} 0 0))
    × ((((published.cache.slabs 8).on_node_list ≡ true)
          × ((published.cache.slabs 8).frozen ≡ false))
        × (((published.cache.slabs 8).in_use ≡ length (published.live 8))
            × ((published.cache.slabs 8).in_use < 2)))
unfolding deactivate_slab after_deactivate publish_partial remove_first
partial_lem_example =
    partial_lem one_node 2 (omega arith) (omega arith) 0 8 published-Reach (omega arith)

popped-claims_example :
    (x : ℕ) × ((rest : List ℕ) × ((claim_remote_objects (popped.cache.cpus 1) (popped.cache.slabs 8)
          ≡ some (x, claimed_cpu (popped.cache.cpus 1) rest, claimed (popped.cache.slabs 8)))
        × (occurs x (popped.live 8) ≡ 0)))
unfolding deactivate_slab after_deactivate publish_partial
popped-claims_example = popped-claims one_node 2 (omega arith) (omega arith) 1 8 popped-Reach refl

-- A page allocator that has the block at frame 16 and no other.
abbrev one_block : (ℕ → Bool) → Option ℕ
one_block given = if given 16 then none else some 16

one_block-new : (g : ℕ → Bool) (s : ℕ) → one_block g ≡ some s → g s ≡ false
one_block-new g s e = elim (Bool-cases (g 16)) [
  | inl q ↦ absurd (let w = rw q at e in cc)
  | inr q ↦
      let w = rw q at e in
      let same : 16 ≡ s = ap (get_or_else s) w in subst (λ i. g i ≡ false) same q
]

created-Allocated_example :
    Allocated one_node
      (objects_of 2040 16 true)
      0
      one_block
      start_system
      0
      (alloc one_node (objects_of 2040 16 true) 0 one_block start_system 0)
created-Allocated_example =
    created-Allocated 2040 16 true one_node 0 one_block start_system 0 (omega arith) (omega arith)
      one_block-new start refl

free-IsReturned_example :
    let z = free one_node 2 0 one_block started 1 8 0 in
    (Reach one_node 2 z × (z.tasks 1 ≡ idle))
    × ((z.live ≡ put started.live 8 (remove_first 0 (started.live 8))) × (occurs 0 (z.live 8) ≡ 0))
    × IsReturned 2 z 8 0
free-IsReturned_example =
    free-IsReturned one_node 2 (omega arith) (omega arith) 0 one_block started 1 8 0 one_block-new
      started-Reach refl (omega arith)

slab_order_for_lem_example :
    ((0 < objects_per_slab 192 (slab_order_for 192))
      × (objects_per_slab 192 (slab_order_for 192) < 2 ^ 15))
    × (((3 ≤ slab_order_for 192) ⊎ (32 ≤ objects_per_slab 192 (slab_order_for 192)))
        × ((slab_order_for 192 ≤ 3) ⊎ (page_size * 2 ^ (slab_order_for 192 - 1) < 192)))
slab_order_for_lem_example = slab_order_for_lem 192 (omega arith) (omega arith)

kmalloc_source_lem_example :
    (((◌≡◌ {A = ℕ} 100 0) ⊎ (has_single_bit 64 ≡ false)) × (kmalloc_source 100 64 ≡ null))
    ⊎ (((0 < 100) × (has_single_bit 64 ≡ true))
        × ((100 ≤ bytes (kmalloc_source 100 64))
            × (IsWell (kmalloc_source 100 64) × (bytes (kmalloc_source 100 64) % 64 ≡ 0))))
kmalloc_source_lem_example = kmalloc_source_lem 100 64 (omega arith) (omega arith)

slab_of-object_at_example :
    (object_at 1000 192 (5 * 2 ^ 1) 7 + 9 < page_to_virt 1000 (5 * 2 ^ 1) + page_size * 2 ^ 1)
    × ((slab_of 1000 1 (object_at 1000 192 (5 * 2 ^ 1) 7 + 9) ≡ some (5 * 2 ^ 1))
        × (index_of 1000 192 (5 * 2 ^ 1) (object_at 1000 192 (5 * 2 ^ 1) 7 + 9) ≡ 7))
slab_of-object_at_example =
    slab_of-object_at 1000 1 192 5 7 9 (omega arith) (omega arith) (omega arith)

create-IsSound_example :
    IsSound 100 16 true
      (create 100 16 true false false true true false).result
      (create 100 16 true false false true true false)
create-IsSound_example = create-IsSound 100 16 true false false true true false (omega arith)

destroy_lem_example : published.live 8 ≡ []
unfolding destroy destroy_cpus destroy_nodes destroy_list release_if_unused deactivate_slab
    after_deactivate publish_partial
destroy_lem_example =
    destroy_lem one_node 2 2 1 8 (omega arith) (omega arith) published-Reach (omega arith)

-- A caller takes the second object too, and CPU 0 lets the full slab go. `destroy` does not come across
-- the slab then: it counts no live object and frees the cache, which the slab still points at.
abbrev emptied : System
emptied =
    hand_out started 8 1
      (put_cpu started.cache 0 (record (started.cache.cpus 0) { bump = 2; bump_left = 0 }))

abbrev full : System
full = deactivate_step emptied 0 8

full-Reach : Reach one_node 2 full
unfolding alloc_local deactivate_slab after_deactivate
full-Reach =
    later (later started-Reach (allocate {c = 0} {s = 8} refl refl refl))
      (deactivate {c = 0} {s = 8} refl refl)

full_unseen : (full.live 8 ≡ 1 ∷ 0 ∷ []) × (frees_cache (destroy full.cache 2 1) ≡ true)
unfolding destroy destroy_cpus destroy_nodes destroy_list release_if_unused deactivate_slab
    after_deactivate
full_unseen = (refl, refl)
