-- ===== src/Heap/Composed.antt =====
-- kernel/src/memory/heap.cpp: a cache with the sizes that `create` gives it.
use native.Mathlib.Nat.{mod-eq_of_lt}
use erebus.Base.{
  ℕ, ◌+◌, ◌≤◌, ◌<◌, ◌^◌, ◌%◌, max, Bool, false, ltb, ltb→lt, not_ltb→le, Bool-cases, Option, some,
  ◌≡◌, sym, ◌∙◌, inl, inr, arith,
}
use erebus.Heap.System.{System, idle, Reach}
use erebus.Heap.Calls.{alloc, Allocated}
use erebus.Heap.Outcomes.{alloc-Allocated}
use erebus.Heap.Sizes.{slab_order_for, objects_per_slab}
use erebus.Heap.Sizes.Orders.{slab_order_for_lem}
use erebus.Heap.Create.{align_up, size_for, size_for_lem}

-- The objects of a slab of the cache.
abbrev pub objects_of : ℕ → ℕ → Bool → ℕ
objects_of obj_size alignment red_zone =
    let size = size_for obj_size alignment red_zone in objects_per_slab size (slab_order_for size)

multiple-le : (n a : ℕ) → 0 < n → n % a ≡ 0 → a ≤ n
multiple-le n a pos h = elim (Bool-cases (ltb n a)) [
  | inl e ↦
      let z : n ≡ 0 = sym (mod-eq_of_lt {n = n} {m = a} (ltb→lt n a e)) ∙ h in absurd (omega arith)
  | inr e ↦ not_ltb→le n a e
]

size_for-bound : (n a : ℕ) (r : Bool) → size_for n a r < 2 ^ 32
unfolding size_for align_up
size_for-bound n a r = omega arith

-- For a cache of objects that with a red zone and their alignment fit 32 bits, from every state that its
-- CPUs reach, if the page allocator gives out no block that the cache has: `alloc` on an idle CPU does
-- not come to a fatal error. It returns an object that callers did not hold and that they hold
-- afterwards, with nothing else handed out or taken back, or it has no memory because the page allocator
-- had no block; and the state that it leaves is one that is reached, with the CPU idle.
pub created-Allocated :
    (obj_size alignment : ℕ) (red_zone : Bool) (node_of : ℕ → ℕ) (node : ℕ)
    (pages : (ℕ → Bool) → Option ℕ) (y : System) (c : ℕ)
    → 0 < obj_size
    → obj_size + 8 + max alignment 8 ≤ 2 ^ 32
    → ((g : ℕ → Bool) (s : ℕ) → pages g ≡ some s → g s ≡ false)
    → Reach node_of (objects_of obj_size alignment red_zone) y
    → y.tasks c ≡ idle
    → Allocated node_of
        (objects_of obj_size alignment red_zone)
        node
        pages
        y
        c
        (alloc node_of (objects_of obj_size alignment red_zone) node pages y c)
created-Allocated obj_size alignment red_zone node_of node pages y c pos bound new_block r t =
    let size = size_for obj_size alignment red_zone in
    let (holds, whole) = size_for_lem obj_size alignment red_zone bound in
    let big = multiple-le size (max alignment 8) (omega arith) whole in
    let (few, rest) =
      slab_order_for_lem size (omega arith) (size_for-bound obj_size alignment red_zone) in
    alloc-Allocated node_of (objects_of obj_size alignment red_zone) node pages few.0 few.1
      new_block y c r t
