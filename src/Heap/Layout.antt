-- ===== src/Heap/Layout.antt =====
-- kernel/src/memory/heap.cpp, kernel/include/memory/address.hpp: where the objects of a slab are. A
-- slab is named by the number of its first frame, and `base` is where the direct map begins.
use native.Mathlib.Nat.{div-mul-le_self, mod-eq_of_lt, mul-add-mod_self_right}
use erebus.Base.{
  ℕ, ◌+◌, ◌-◌, ◌*◌, ◌/◌, ◌%◌, ◌^◌, ◌≤◌, ◌<◌, false, ltb, if◌then◌else◌, Option, none, some, ◌≡◌,
  ◌∙◌, ap, arith,
}
use erebus.Heap.Sizes.{page_size, objects_per_slab}

unfoldable pub phys_to_virt : ℕ → ℕ → ℕ
phys_to_virt base phys = phys + base

unfoldable pub virt_to_phys : ℕ → ℕ → Option ℕ
virt_to_phys base virt = if ltb virt base then none else some (virt - base)

unfoldable pub page_to_virt : ℕ → ℕ → ℕ
page_to_virt base pfn = phys_to_virt base (pfn * page_size)

-- Rounding down to a multiple of 2 ^ `order`, by its mask.
abbrev pub block_of : ℕ → ℕ → ℕ
block_of order pfn = pfn - pfn % 2 ^ order

abbrev slab_at_phys : ℕ → Option ℕ → Option ℕ
slab_at_phys order none = none
slab_at_phys order (some phys) = some (block_of order (phys / page_size))

-- None stands for the fatal error on a pointer below the direct map.
unfoldable pub slab_of : ℕ → ℕ → ℕ → Option ℕ
slab_of base order obj = slab_at_phys order (virt_to_phys base obj)

unfoldable pub index_of : ℕ → ℕ → ℕ → ℕ → ℕ
index_of base size slab obj = (obj - page_to_virt base slab) / size % 2 ^ 16

unfoldable pub object_at : ℕ → ℕ → ℕ → ℕ → ℕ
object_at base size slab idx = page_to_virt base slab + idx * size

next_le : (i n m : ℕ) → i < n → (i + 1) * m ≤ n * m
next_le i n m h = grind arith

add_div : (i m off : ℕ) → off < m → (i * m + off) / m ≡ i
add_div i m off h = grind arith

-- Every address in a block rounds down to its first frame.
block_found :
    (order block x : ℕ)
    → x < page_size * 2 ^ order
    → block_of order ((block * 2 ^ order * page_size + x) / page_size) ≡ block * 2 ^ order
block_found order block x h =
    let pfn : (block * 2 ^ order * page_size + x) / page_size ≡ block * 2 ^ order + x / page_size =
      omega arith in
    let r : (block * 2 ^ order + x / page_size) % 2 ^ order ≡ x / page_size =
      mul-add-mod_self_right block (2 ^ order) (x / page_size)
      ∙ mod-eq_of_lt {n = x / page_size} {m = 2 ^ order} (omega arith) in
    rw (pfn, r) (omega arith)

-- For a slab at a multiple of its size, one of its objects and any byte of that object: the byte lies in
-- the slab, and from its address `slab_of` finds the slab and `index_of` the object.
pub slab_of-object_at :
    (base order size block idx off : ℕ)
    → off < size
    → idx < objects_per_slab size order
    → objects_per_slab size order < 2 ^ 16
    → let slab = block * 2 ^ order in
      let byte = object_at base size slab idx + off in
      (byte < page_to_virt base slab + page_size * 2 ^ order)
      × ((slab_of base order byte ≡ some slab) × (index_of base size slab byte ≡ idx))
unfolding phys_to_virt virt_to_phys page_to_virt slab_of index_of object_at
slab_of-object_at base order size block idx off lt in_slab small =
    let room = div-mul-le_self (page_size * 2 ^ order) size in
    let next = next_le idx (objects_per_slab size order) size in_slab in
    let split : (idx + 1) * size ≡ idx * size + size = grind arith in
    let inside : idx * size + off < page_size * 2 ^ order = omega arith in
    let at = add_div idx size off lt in
    let above : ltb (object_at base size (block * 2 ^ order) idx + off) base ≡ false =
      ground arith in
    let phys : object_at base size (block * 2 ^ order) idx + off - base
        ≡ block * 2 ^ order * page_size + (idx * size + off) =
      omega arith in
    let offset : object_at base size (block * 2 ^ order) idx
          + off
          - page_to_virt base (block * 2 ^ order)
        ≡ idx * size + off =
      omega arith in
    (
      omega arith,
      (
        rw (slab_of, virt_to_phys, above, phys)
            (ap some (block_found order block (idx * size + off) inside)),
        rw (index_of, offset, at) (mod-eq_of_lt {n = idx} {m = 2 ^ 16} (omega arith)),
      ),
    )
