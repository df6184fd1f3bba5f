-- ===== src/Heap/Sizes.antt =====
-- kernel/src/memory/heap.cpp, kernel/include/utils/maths.hpp: the size classes of `kmalloc`, the order
-- of the slabs of a cache, and which of the two `kmalloc` takes an allocation from.
pub mod Classes
pub mod Orders
pub mod Sources
use native.Mathlib.Nat.{pow-le-pow_right, mul-mod_right}
use erebus.Base.{
  ℕ, zero, suc, ◌+◌, ◌-◌, ◌*◌, ◌/◌, ◌%◌, ◌^◌, ◌≤◌, ◌<◌, max, Bool, true, false, ltb, leb, ◌==◌,
  ◌&&◌, ◌||◌, not, if◌then◌else◌, Bool-cases, leb→le, not_leb→lt, ltb→lt, not_ltb→le, ==→eq, ◌≡◌,
  refl, sym, subst, ◌⊎◌, inl, inr, arith,
}

abbrev pub page_size : ℕ
page_size = 4096

abbrev pub num_kmalloc_caches : ℕ
num_kmalloc_caches = 13

-- The exponent of `std::bit_ceil`, from `k` on and `fuel` at most.
unfoldable pub log_ceil_from : ℕ → ℕ → ℕ → ℕ
log_ceil_from zero k n = k
log_ceil_from (suc fuel) k n =
    let rest = log_ceil_from fuel (k + 1) n in if leb n (2 ^ k) then k else rest

-- `std::countr_zero(std::bit_ceil(n))` of a 64-bit number.
unfoldable pub log_ceil : ℕ → ℕ
log_ceil n = log_ceil_from 63 0 n

unfoldable pub size_to_index : ℕ → ℕ
size_to_index size = if leb size 8 then 0 else log_ceil size - 3

-- The two loops of `slab_order_for`.
unfoldable pub grow_to_fit : ℕ → ℕ → ℕ → ℕ
grow_to_fit zero order size = order
grow_to_fit (suc fuel) order size =
    let rest = grow_to_fit fuel (order + 1) size in
    if ltb (page_size * 2 ^ order) size then rest else order

unfoldable pub grow_to_hold : ℕ → ℕ → ℕ → ℕ
grow_to_hold zero order size = order
grow_to_hold (suc fuel) order size =
    let rest = grow_to_hold fuel (order + 1) size in
    if ltb order 3 && ltb (page_size * 2 ^ order / size) 32 then rest else order

unfoldable pub slab_order_for : ℕ → ℕ
slab_order_for size = grow_to_hold 3 (grow_to_fit 20 0 size) size

-- What `new_slab` makes of a block.
abbrev pub objects_per_slab : ℕ → ℕ → ℕ
objects_per_slab size order = page_size * 2 ^ order / size

-- `std::has_single_bit`
unfoldable pub has_single_bit : ℕ → Bool
has_single_bit n = n == 2 ^ log_ceil n

-- Where `kmalloc` takes an allocation from.
pub data Source : Type 0 where
  null : Source
  cache pages : ℕ → Source

-- `div_round_up` by the page size.
abbrev pub pages_needed : ℕ → ℕ
pages_needed n = n / page_size + (if n % page_size == 0 then 0 else 1)

unfoldable pub source_for : ℕ → Source
source_for required =
    if ltb (size_to_index required) num_kmalloc_caches
    then cache (size_to_index required)
    else pages (log_ceil (pages_needed required))

unfoldable pub kmalloc_source : ℕ → ℕ → Source
kmalloc_source size alignment =
    if size == 0 || not (has_single_bit alignment) then null else source_for (max size alignment)

-- Bytes of a block from a source.
abbrev pub bytes : Source → ℕ
bytes null = 0
bytes (cache i) = 2 ^ (i + 3)
bytes (pages order) = page_size * 2 ^ order

abbrev pub IsWell : Source → Type 0
IsWell null = Unit
IsWell (cache i) = i < num_kmalloc_caches
IsWell (pages order) = order ≤ 51
