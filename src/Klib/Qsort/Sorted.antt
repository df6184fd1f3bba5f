-- ===== src/Klib/Qsort/Sorted.antt =====
-- klib/src/stdlib/qsort.cpp: `introsort` ends and only exchanges elements; the insertion sort after
-- it sorts.
use erebus.Base.{
  ℕ, zero, suc, ◌+◌, ◌-◌, ◌*◌, ◌≤◌, ◌<◌, true, false, ◌==◌, ltb, leb, ◌≡◌, ◌≢◌, refl, sym, subst,
  inl, inr, arith, Bool-cases, not_leb→lt, ltb→lt, not_ltb→le, ==→eq, not_==→ne, ne_==,
}
use erebus.Base.Partial.{Yields}
use erebus.Klib.{Sign, is_below}
use erebus.Klib.Qsort.{
  swap, less, insertion_threshold, sides, introsort, sink, insert_all, insertion_sort, bit_width,
  qsort,
}
use erebus.Klib.Qsort.Swaps.{Permuted, refl-Permuted, trans-Permuted, swap-Permuted}
use erebus.Klib.Qsort.Heap.{heap_sort-Permuted}
use erebus.Klib.Qsort.Partition.{partition-Partitioned}

-- The comparison is a strict weak order.
pub record Order {A : Type 0} (compare : A → A → Sign) : Type 0 where
  pub asym : (x y : A) → is_below (compare x y) ≡ true → is_below (compare y x) ≡ false
  pub trans :
      (x y z : A)
      → is_below (compare y x) ≡ false
      → is_below (compare z y) ≡ false
      → is_below (compare z x) ≡ false

sides_bounds :
    (first count pivot : ℕ)
    → first ≤ pivot
    → pivot < first + count
    → ((sides first count pivot).0 + (sides first count pivot).1 ≤ first + count)
      × ((sides first count pivot).1 < count)
      × ((sides first count pivot).2 + (sides first count pivot).3 ≤ first + count)
      × ((sides first count pivot).3 < count)
sides_bounds first count pivot lo hi = ground arith

module _ {A : Type 0} (compare : A → A → Sign) (n : ℕ) where
  introsort-Permuted :
      (fuel : ℕ) (a : ℕ → A) (first count depth_limit : ℕ)
      → count < fuel
      → first + count ≤ n
      → Yields (Permuted n a) (introsort compare fuel a first count depth_limit)
  unfolding introsort
  introsort-Permuted zero a first count depth_limit f le = absurd (omega arith)
  introsort-Permuted (suc fuel) a first count zero f le =
      elim (Bool-cases (leb count insertion_threshold)) [
        | inl e ↦ rw (introsort, e) (a, refl, refl-Permuted a)
        | inr e ↦
            let long = not_leb→lt _ _ e in
            rw (introsort, e) (heap_sort-Permuted compare a first count (omega arith) le)
      ]
  introsort-Permuted (suc fuel) a first count (suc depth) f le =
      elim (Bool-cases (leb count insertion_threshold)) [
        | inl e ↦ rw (introsort, e) (a, refl, refl-Permuted a)
        | inr e ↦
            let long = not_leb→lt _ _ e in
            let (b, eq, p) = partition-Partitioned compare n a first count (omega arith) le in
            let (s0, s1, s2, s3) = sides_bounds first count b.1 p.1 p.2 in
            let s = sides first count b.1 in
            let (c, eq_c, q) =
              introsort-Permuted fuel b.0 s.0 s.1 depth (omega arith) (omega arith) in
            let (d, eq_d, r) =
              introsort-Permuted fuel c s.2 s.3 depth (omega arith) (omega arith) in
            rw (introsort, e, eq, eq_c) (d, eq_d, trans-Permuted p.0 (trans-Permuted q r))
      ]

  sink-Permuted : (j : ℕ) (a : ℕ → A) → j < n → Permuted n a (sink compare j a)
  unfolding sink
  sink-Permuted zero a lt = refl-Permuted a
  sink-Permuted (suc j) a lt = elim (Bool-cases (less compare a (suc j) j)) [
    | inl e ↦ rw e (
        trans-Permuted (swap-Permuted a (suc j) j lt (omega arith))
          (sink-Permuted j (swap a (suc j) j) (omega arith)))
    | inr e ↦ rw e (refl-Permuted a)
  ]

  insert_all-Permuted : (k : ℕ) (a : ℕ → A) → k < n → Permuted n a (insert_all compare k a)
  unfolding insert_all
  insert_all-Permuted zero a lt = refl-Permuted a
  insert_all-Permuted (suc k) a lt =
      trans-Permuted (insert_all-Permuted k a (omega arith))
        (sink-Permuted (suc k) (insert_all compare k a) lt)

module _ {A : Type 0} (compare : A → A → Sign) (order : Order compare) where
  -- No element up to place `n` compares below an earlier one.
  abbrev pub Sorted : ℕ → (ℕ → A) → Type 0
  Sorted n a = (p q : ℕ) → p < q → q ≤ n → less compare a q p ≡ false

  -- The same, but for the element at `j` against those before it.
  abbrev SortedBut : ℕ → ℕ → (ℕ → A) → Type 0
  SortedBut j n a = (p q : ℕ) → p < q → q ≤ n → q ≢ j → less compare a q p ≡ false

  -- Once the element is no lower than its neighbour, it is in place.
  settled-Sorted :
      (j n : ℕ) (a : ℕ → A) → less compare a (suc j) j ≡ false → SortedBut (suc j) n a → Sorted n a
  settled-Sorted j n a e s p q lt le = elim (Bool-cases (q == suc j)) [
    | inr f ↦ s p q lt le (not_==→ne _ _ f)
    | inl f ↦
        subst (λ k. less compare a k p ≡ false) (sym (==→eq _ _ f))
          (elim (Bool-cases (p == j)) [
            | inl g ↦ subst (λ k. less compare a (suc j) k ≡ false) (sym (==→eq _ _ g)) e
            | inr g ↦
                order.trans (a p) (a j) (a (suc j))
                  (s p j (omega (arith, not_==→ne _ _ g, ==→eq _ _ f)) (omega (arith, ==→eq _ _ f))
                    (omega arith))
                  e
          ])
  ]

  step-SortedBut :
      (j n : ℕ) (a : ℕ → A)
      → less compare a (suc j) j ≡ true
      → suc j ≤ n
      → SortedBut (suc j) n a
      → SortedBut j n (swap a (suc j) j)
  unfolding swap
  step-SortedBut j n a e in_n s p q lt le ne =
      ground (arith, order.asym (a (suc j)) (a j) e, s p j, s (suc j) q, s j q, s p q)

  sink-Sorted : (j n : ℕ) (a : ℕ → A) → j ≤ n → SortedBut j n a → Sorted n (sink compare j a)
  unfolding sink
  sink-Sorted zero n a le s = λ p q lt in_n. s p q lt in_n (omega arith)
  sink-Sorted (suc j) n a le s = elim (Bool-cases (less compare a (suc j) j)) [
    | inl e ↦ rw e (sink-Sorted j n (swap a (suc j) j) (omega arith) (step-SortedBut j n a e le s))
    | inr e ↦ rw e (settled-Sorted j n a e s)
  ]

  insert_all-Sorted : (n : ℕ) (a : ℕ → A) → Sorted n (insert_all compare n a)
  unfolding insert_all
  insert_all-Sorted zero a = λ p q lt le. absurd (omega arith)
  insert_all-Sorted (suc n) a =
      let b = insert_all compare n a in
      sink-Sorted (suc n) (suc n) b (omega arith)
        (λ p q lt le ne. insert_all-Sorted n a p q lt (omega arith))

module _ {A : Type 0} (compare : A → A → Sign) (a : ℕ → A) (count size : ℕ) where
  -- Whatever the comparison answers, `qsort` ends with the old elements up to the count, each as often
  -- as before, and with nothing changed from the count on: neither the recursion of `introsort`, nor
  -- the loop of `partition`, nor the one of `sift_down` is cut off by its bound.
  pub qsort-Permuted : Yields (Permuted count a) (qsort compare a count size)
  qsort-Permuted = elim (Bool-cases (ltb count 2)) [
    | inl e ↦ rw e (a, refl, refl-Permuted a)
    | inr e ↦ elim (Bool-cases (size == 0)) [
      | inl f ↦ rw (e, f) (a, refl, refl-Permuted a)
      | inr f ↦
          let two = not_ltb→le _ _ e in
          let (b, eq, p) =
            introsort-Permuted compare count (count + 1) a 0 count (2 * bit_width 64 count)
              (omega arith) (omega arith) in
          rw (e, f, eq)
            (
              insertion_sort compare b count,
              refl,
              trans-Permuted p (insert_all-Permuted compare count (count - 1) b (omega arith)),
            )
    ]
  ]

  abbrev pub IsSorted : (ℕ → A) → Type 0
  IsSorted b = (p q : ℕ) → p < q → q < count → less compare b q p ≡ false

  -- For a comparison that is a strict weak order and elements that have bytes, no element of the array
  -- that `qsort` leaves compares below an earlier one.
  pub qsort-IsSorted : Order compare → size ≢ 0 → Yields IsSorted (qsort compare a count size)
  qsort-IsSorted order ne = elim (Bool-cases (ltb count 2)) [
    | inl e ↦ rw e (a, refl, λ p q lt le. absurd (omega (arith, ltb→lt _ _ e)))
    | inr e ↦
        let two = not_ltb→le _ _ e in
        let (b, eq, p) =
          introsort-Permuted compare count (count + 1) a 0 count (2 * bit_width 64 count)
            (omega arith) (omega arith) in
        rw (e, ne_== size 0 ne, eq)
          (
            insertion_sort compare b count,
            refl,
            λ i j lt le. insert_all-Sorted compare order (count - 1) b i j lt (omega arith),
          )
  ]
