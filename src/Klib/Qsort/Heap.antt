-- ===== src/Klib/Qsort/Heap.antt =====
-- klib/src/stdlib/qsort.cpp: `heap_sort` ends, and only exchanges elements.
use erebus.Base.{
  ℕ, zero, suc, ◌+◌, ◌-◌, ◌*◌, ◌/◌, ◌≤◌, ◌<◌, leb, refl, inl, inr, arith, Bool-cases, not_leb→lt,
}
use erebus.Base.Partial.{Yields}
use erebus.Klib.{Sign}
use erebus.Klib.Qsort.{swap, less, larger_child, sift_down, build_heap, take_heap, heap_sort}
use erebus.Klib.Qsort.Swaps.{Permuted, refl-Permuted, trans-Permuted, swap-Permuted}

module _ {A : Type 0} (compare : A → A → Sign) where
  -- The child that `sift_down` goes on with is below the end.
  larger_child_bounds :
      (a : ℕ → A) (child first end : ℕ)
      → child < end
      → (child ≤ larger_child compare a child first end)
        × (larger_child compare a child first end < end)
  larger_child_bounds a child first end lt = ground arith

module _ {A : Type 0} (compare : A → A → Sign) {n : ℕ} where
  -- A bound of the distance from the root to the end is enough.
  pub sift_down-Permuted :
      (fuel : ℕ) (a : ℕ → A) (root first end : ℕ)
      → 0 < fuel
      → end ≤ fuel + root
      → first + end ≤ n
      → Yields (Permuted n a) (sift_down compare fuel a root first end)
  unfolding sift_down
  sift_down-Permuted zero a root first end pos f le = absurd (omega arith)
  sift_down-Permuted (suc fuel) a root first end pos f le =
      elim (Bool-cases (leb end (2 * root + 1))) [
        | inl e ↦ rw (sift_down, e) (a, refl, refl-Permuted a)
        | inr e ↦
            let child = larger_child compare a (2 * root + 1) first end in
            let (lo, hi) =
              larger_child_bounds compare a (2 * root + 1) first end (not_leb→lt _ _ e) in
            elim (Bool-cases (less compare a (first + root) (first + child))) [
              | inr q ↦ rw (sift_down, e, q) (a, refl, refl-Permuted a)
              | inl q ↦
                  let (b, eq, p) =
                    sift_down-Permuted fuel (swap a (first + root) (first + child)) child first end
                      (omega arith) (omega arith) le in
                  rw (sift_down, e, q)
                    (
                      b,
                      eq,
                      trans-Permuted
                          (swap-Permuted a (first + root) (first + child) (omega arith)
                            (omega arith))
                          p,
                    )
            ]
      ]

  build_heap-Permuted :
      (i : ℕ) (a : ℕ → A) (first count : ℕ)
      → first + count ≤ n
      → Yields (Permuted n a) (build_heap compare i a first count)
  unfolding build_heap
  build_heap-Permuted zero a first count le = (a, refl, refl-Permuted a)
  build_heap-Permuted (suc i) a first count le =
      let (b, e, p) =
        sift_down-Permuted (count + 1) a i first count (omega arith) (omega arith) le in
      let (c, f, q) = build_heap-Permuted i b first count le in rw e (c, f, trans-Permuted p q)

  take_heap-Permuted :
      (end : ℕ) (a : ℕ → A) (first : ℕ)
      → first + end < n
      → Yields (Permuted n a) (take_heap compare end a first)
  unfolding take_heap
  take_heap-Permuted zero a first le = (a, refl, refl-Permuted a)
  take_heap-Permuted (suc end) a first le =
      let s = swap-Permuted a first (first + suc end) (omega arith) le in
      let (b, e, p) =
        sift_down-Permuted (end + 2) (swap a first (first + suc end)) 0 first (suc end)
          (omega arith) (omega arith) (omega arith) in
      let (c, f, q) = take_heap-Permuted end b first (omega arith) in
      rw e (c, f, trans-Permuted s (trans-Permuted p q))

  pub heap_sort-Permuted :
      (a : ℕ → A) (first count : ℕ)
      → 0 < count
      → first + count ≤ n
      → Yields (Permuted n a) (heap_sort compare a first count)
  heap_sort-Permuted a first count pos le =
      let (b, e, p) = build_heap-Permuted (count / 2) a first count le in
      let (c, f, q) = take_heap-Permuted (count - 1) b first (omega arith) in
      rw e (c, f, trans-Permuted p q)
