-- ===== src/Klib/Qsort.antt =====
-- klib/src/stdlib/qsort.cpp: an introsort that leaves short partitions to one insertion sort.
-- An array is a function from positions to elements; `swap_bytes` exchanges two elements whole. A
-- loop whose end is not plain has a bound, and gives `none` when that runs out.
pub mod Swaps
pub mod Heap
pub mod Partition
pub mod Sorted
use erebus.Base.{
  ℕ, zero, suc, ◌+◌, ◌-◌, ◌*◌, ◌/◌, ◌≤◌, ◌<◌, Bool, true, false, ◌==◌, ◌&&◌, not, ltb, leb,
  if◌then◌else◌, Option, none, some,
}
use erebus.Base.Family.{put}
use erebus.Base.Partial.{◌>>=◌}
use erebus.Klib.{Sign, is_below}

abbrev pub insertion_threshold : ℕ
insertion_threshold = 16

-- `std::bit_width`, of a number that has at most `w` bits.
abbrev pub bit_width : ℕ → ℕ → ℕ
bit_width zero x = 0
bit_width (suc w) x = let rest = bit_width w (x / 2) in if x == 0 then 0 else 1 + rest

-- The smaller and the larger side of a pivot: where each begins and how long it is.
abbrev pub sides : ℕ → ℕ → ℕ → ℕ × ℕ × ℕ × ℕ
sides first count pivot =
    let left_count = pivot - first in
    let right_count = count - left_count - 1 in
    if ltb left_count right_count
    then (first, left_count, pivot + 1, right_count)
    else (pivot + 1, right_count, first, left_count)

module _ {A : Type 0} where
  unfoldable pub swap : (ℕ → A) → ℕ → ℕ → ℕ → A
  swap a i j = put (put a i (a j)) j (a i)

  module _ (compare : A → A → Sign) where
    abbrev pub less : (ℕ → A) → ℕ → ℕ → Bool
    less a i j = is_below (compare (a i) (a j))

    abbrev pub larger_child : (ℕ → A) → ℕ → ℕ → ℕ → ℕ
    larger_child a child first end =
        if ltb (child + 1) end && less a (first + child) (first + child + 1)
        then child + 1
        else child

    unfoldable pub sift_down : ℕ → (ℕ → A) → ℕ → ℕ → ℕ → Option (ℕ → A)
    sift_down zero a root first end = none
    sift_down (suc fuel) a root first end =
        let child = larger_child a (2 * root + 1) first end in
        elim (leb end (2 * root + 1)) [
          | true ↦ some a
          | false ↦ elim (less a (first + root) (first + child)) [
            | false ↦ some a
            | true ↦ sift_down fuel (swap a (first + root) (first + child)) child first end
          ]
        ]

    unfoldable pub build_heap : ℕ → (ℕ → A) → ℕ → ℕ → Option (ℕ → A)
    build_heap zero a first count = some a
    build_heap (suc i) a first count = do
      b ← sift_down (count + 1) a i first count
      build_heap i b first count

    -- The second loop of `heap_sort`, from the end of the heap down.
    unfoldable pub take_heap : ℕ → (ℕ → A) → ℕ → Option (ℕ → A)
    take_heap zero a first = some a
    take_heap (suc end) a first = do
      b ← sift_down (end + 2) (swap a first (first + suc end)) 0 first (suc end)
      take_heap end b first

    abbrev pub heap_sort : (ℕ → A) → ℕ → ℕ → Option (ℕ → A)
    heap_sort a first count = do
      b ← build_heap (count / 2) a first count
      take_heap (count - 1) b first

    abbrev pub swap_if_less : (ℕ → A) → ℕ → ℕ → ℕ → A
    swap_if_less a i j = if less a i j then swap a i j else a

    -- The median of the first, the middle and the last element goes first.
    abbrev pub median_first : (ℕ → A) → ℕ → ℕ → ℕ → A
    median_first a first count =
        let mid = first + count / 2 in
        let last = first + count - 1 in
        let a = swap_if_less a mid first in
        let a = swap_if_less a last first in let a = swap_if_less a last mid in swap a mid first

    -- `while (left <= right && less(left, first)) ++left`, with `right + 1 - left` positions to go.
    unfoldable pub scan_left : ℕ → (ℕ → A) → ℕ → ℕ → ℕ
    scan_left zero a first left = left
    scan_left (suc k) a first left =
        let rest = scan_left k a first (left + 1) in if less a left first then rest else left

    unfoldable pub scan_right : ℕ → (ℕ → A) → ℕ → ℕ → ℕ
    scan_right zero a first right = right
    scan_right (suc k) a first right =
        let rest = scan_right k a first (right - 1) in if less a first right then rest else right

    -- The loop of `partition`: the array and `right` at its end.
    unfoldable pub partition_loop : ℕ → (ℕ → A) → ℕ → ℕ → ℕ → Option ((ℕ → A) × ℕ)
    partition_loop zero a first left right = none
    partition_loop (suc fuel) a first left right =
        let l = scan_left (right + 1 - left) a first left in
        let r = scan_right (right + 1 - l) a first right in
        elim (leb r l) [
          | true ↦ some (a, r)
          | false ↦ partition_loop fuel (swap a l r) first (l + 1) (r - 1)
        ]

    abbrev pub partition : (ℕ → A) → ℕ → ℕ → Option ((ℕ → A) × ℕ)
    partition a first count = do
      b ← partition_loop count (median_first a first count) first (first + 1) (first + count - 1)
      some (swap b.0 first b.1, b.1)

    -- One round of the loop, its recursive call and the rounds that follow take one from the bound.
    unfoldable pub introsort : ℕ → (ℕ → A) → ℕ → ℕ → ℕ → Option (ℕ → A)
    introsort zero a first count depth_limit = none
    introsort (suc fuel) a first count depth_limit = elim (leb count insertion_threshold) [
      | true ↦ some a
      | false ↦ elim depth_limit [
        | zero ↦ heap_sort a first count
        | suc depth ↦ do
          p ← partition a first count
          let (f, c, next, rest) = sides first count p.1
          b ← introsort fuel p.0 f c depth
          introsort fuel b next rest depth
      ]
    ]

    -- The inner loop of `insertion_sort`.
    unfoldable pub sink : ℕ → (ℕ → A) → ℕ → A
    sink zero a = a
    sink (suc j) a = let rest = sink j (swap a (suc j) j) in if less a (suc j) j then rest else a

    -- The outer loop, for `i` from 1 below `n + 1`.
    unfoldable pub insert_all : ℕ → (ℕ → A) → ℕ → A
    insert_all zero a = a
    insert_all (suc n) a = sink (suc n) (insert_all n a)

    abbrev pub insertion_sort : (ℕ → A) → ℕ → ℕ → A
    insertion_sort a count = insert_all (count - 1) a

    abbrev pub qsort : (ℕ → A) → ℕ → ℕ → Option (ℕ → A)
    qsort a count size = if ltb count 2 then some a else if size == 0 then some a else do
      b ← introsort (count + 1) a 0 count (2 * bit_width 64 count)
      some (insertion_sort b count)
