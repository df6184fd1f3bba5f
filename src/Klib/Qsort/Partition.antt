-- ===== src/Klib/Qsort/Partition.antt =====
-- klib/src/stdlib/qsort.cpp: `partition` ends, and splits its range at the pivot.
use erebus.Base.{
  ℕ, zero, suc, ◌+◌, ◌-◌, ◌/◌, ◌≤◌, ◌<◌, true, false, ◌==◌, ltb, leb, ◌≡◌, refl, sym, subst, ◌⊎◌,
  inl, inr, arith, ◌∙◌, Bool-cases, leb→le, not_leb→lt, ltb→lt, not_ltb→le, ==→eq, not_==→ne,
}
use erebus.Base.Partial.{Yields}
use erebus.Klib.{Sign, is_below}
use erebus.Klib.Qsort.{
  swap, less, swap_if_less, median_first, scan_left, scan_right, partition_loop, partition,
}
use erebus.Klib.Qsort.Swaps.{
  Permuted, refl-Permuted, trans-Permuted, swap-Permuted, swap_if_less-Permuted, swap-first,
  swap-second, swap-other,
}

module _ {A : Type 0} (compare : A → A → Sign) where
  -- The comparison puts the first below the second, or does not put the second below the first.
  abbrev pub NotAfter : A → A → Type 0
  NotAfter x y = (is_below (compare x y) ≡ true) ⊎ (is_below (compare y x) ≡ false)

  scan_left_lem :
      (k : ℕ) (a : ℕ → A) (first left right : ℕ)
      → right + 1 ≡ left + k
      → (left ≤ scan_left compare k a first left)
        × (scan_left compare k a first left ≤ right + 1)
        × ((j : ℕ)
            → left ≤ j
            → j < scan_left compare k a first left
            → less compare a j first ≡ true)
        × (scan_left compare k a first left ≤ right
            → less compare a (scan_left compare k a first left) first ≡ false)
  unfolding scan_left
  scan_left_lem zero a first left right e =
      (omega arith, omega arith, λ j u v. absurd (omega arith), λ u. absurd (omega arith))
  scan_left_lem (suc k) a first left right e =
      let rest = scan_left_lem k a first (left + 1) right (omega arith) in
      elim (Bool-cases (less compare a left first)) [
        | inl q ↦ rw q (
          omega (arith, rest.0),
          rest.1,
          λ j u v. elim (Bool-cases (j == left)) [
            | inl s ↦ ground (arith, q)
            | inr s ↦ rest.2 j (ground arith) v
          ],
          rest.3,
        )
        | inr q ↦ rw q (omega arith, omega arith, λ j u v. absurd (omega arith), λ u. q)
      ]

  scan_right_lem :
      (k : ℕ) (a : ℕ → A) (first left right : ℕ)
      → 0 < left
      → right + 1 ≡ left + k
      → (scan_right compare k a first right ≤ right)
        × (left ≤ scan_right compare k a first right + 1)
        × ((j : ℕ)
            → scan_right compare k a first right < j
            → j ≤ right
            → less compare a first j ≡ true)
        × (left ≤ scan_right compare k a first right
            → less compare a first (scan_right compare k a first right) ≡ false)
  unfolding scan_right
  scan_right_lem zero a first left right pos e =
      (omega arith, omega arith, λ j u v. absurd (omega arith), λ u. absurd (omega arith))
  scan_right_lem (suc k) a first left right pos e =
      let rest = scan_right_lem k a first left (right - 1) pos (omega arith) in
      elim (Bool-cases (less compare a first right)) [
        | inl q ↦ rw q (
          omega (arith, rest.0),
          rest.1,
          λ j u v. elim (Bool-cases (j == right)) [
            | inl s ↦ ground (arith, q)
            | inr s ↦ rest.2 j u (ground arith)
          ],
          rest.3,
        )
        | inr q ↦ rw q (omega arith, omega arith, λ j u v. absurd (omega arith), λ u. q)
      ]

  -- Between `first` and `left` nothing is after the pivot, from `right` to the end nothing before it.
  record Scanned (p : A) (a : ℕ → A) (first left right end : ℕ) : Type 0 where
    pivot : a first ≡ p
    passed_left : (k : ℕ) → first < k → k < left → NotAfter (a k) p
    passed_right : (k : ℕ) → right < k → k < end → NotAfter p (a k)

  abbrev Split : A → ℕ → (ℕ → A) → ℕ → ℕ → ℕ → (ℕ → A) × ℕ → Type 1
  Split p n a first right end x =
      Permuted n a x.0 × (first ≤ x.1) × (x.1 ≤ right) × Scanned p x.0 first (x.1 + 1) x.1 end

  -- Elements that the scans have gone over, and the two that they stop at.
  stop-Scanned :
      {p : A} {a : ℕ → A} (first left right end l r : ℕ)
      → Scanned p a first left right end
      → left ≤ l
      → r ≤ right
      → right < end
      → ((j : ℕ) → left ≤ j → j < l → less compare a j first ≡ true)
      → ((j : ℕ) → r < j → j ≤ right → less compare a first j ≡ true)
      → Scanned p a first l r end
  stop-Scanned {p} {a} first left right end l r s le_l le_r in_end below_l above_r = record {
    pivot = s.pivot;
    passed_left = λ k u v. elim (Bool-cases (ltb k left)) [
      | inl e ↦ s.passed_left k u (ltb→lt _ _ e)
      | inr e ↦
          inl (
            subst (λ x. is_below (compare (a k) x) ≡ true) s.pivot (below_l k (not_ltb→le _ _ e) v))
    ];
    passed_right = λ k u v. elim (Bool-cases (ltb right k)) [
      | inl e ↦ s.passed_right k (ltb→lt _ _ e) v
      | inr e ↦
          inl (
            subst (λ x. is_below (compare x (a k)) ≡ true) s.pivot (above_r k u (not_ltb→le _ _ e)))
    ];
  }

  -- The exchange of the two elements that the scans stop at, and the step of both bounds.
  swap-Scanned :
      {p : A} {a : ℕ → A} (first l r end : ℕ)
      → Scanned p a first l r end
      → first < l
      → l < r
      → r < end
      → less compare a l first ≡ false
      → less compare a first r ≡ false
      → Scanned p (swap a l r) first (l + 1) (r - 1) end
  unfolding swap
  swap-Scanned {p} {a} first l r end s lt_l lt lt_r stop_l stop_r =
      let after_l : NotAfter p (a l) =
        inr (subst (λ x. is_below (compare (a l) x) ≡ false) s.pivot stop_l) in
      let before_r : NotAfter (a r) p =
        inr (subst (λ x. is_below (compare x (a r)) ≡ false) s.pivot stop_r) in
      record {
        pivot = ground (arith, s.pivot);
        passed_left = λ k u v. elim (Bool-cases (l == k)) [
          | inl e ↦
              subst (λ j. NotAfter (swap a l r j) p) (==→eq _ _ e)
                (subst (λ x. NotAfter x p) (sym (swap-first a l r)) before_r)
          | inr e ↦
              subst (λ x. NotAfter x p) (sym (swap-other a l r k (not_==→ne _ _ e) (omega arith)))
                (s.passed_left k u (omega (arith, not_==→ne _ _ e)))
        ];
        passed_right = λ k u v. elim (Bool-cases (r == k)) [
          | inl e ↦
              subst (λ j. NotAfter p (swap a l r j)) (==→eq _ _ e)
                (subst (NotAfter p) (sym (swap-second a l r)) after_l)
          | inr e ↦
              subst (NotAfter p) (sym (swap-other a l r k (omega arith) (not_==→ne _ _ e)))
                (s.passed_right k (omega (arith, not_==→ne _ _ e)) v)
        ];
      }

  -- Once the scans have met, the element that `right` stops at is on the left side.
  crossed-Scanned :
      {p : A} {a : ℕ → A} (first l r end : ℕ)
      → Scanned p a first l r end
      → r ≤ l
      → (l ≤ r → less compare a first r ≡ false)
      → Scanned p a first (r + 1) r end
  crossed-Scanned {p} {a} first l r end s le stop = record {
    pivot = s.pivot;
    passed_right = s.passed_right;
    passed_left = λ k u v. elim (Bool-cases (ltb k l)) [
      | inl e ↦ s.passed_left k u (ltb→lt _ _ e)
      | inr e ↦
          let past = not_ltb→le _ _ e in
          let same : r ≡ k = omega arith in
          subst (λ j. NotAfter (a j) p) same
            (inr (subst (λ x. is_below (compare x (a r)) ≡ false) s.pivot (stop (omega arith))))
    ];
  }

  partition_loop-Splits :
      {n : ℕ} {p : A} (fuel : ℕ) (a : ℕ → A) (first left right end : ℕ)
      → first < left
      → left ≤ right + 1
      → right < end
      → end ≤ n
      → right + 2 ≤ left + fuel
      → Scanned p a first left right end
      → Yields (Split p n a first right end) (partition_loop compare fuel a first left right)
  unfolding partition_loop
  partition_loop-Splits zero a first left right end lt le in_end in_n f s = absurd (omega arith)
  partition_loop-Splits {n} {p} (suc fuel) a first left right end lt le in_end in_n f s =
      let l = scan_left compare (right + 1 - left) a first left in
      let r = scan_right compare (right + 1 - l) a first right in
      let (l0, l1, l2, l3) = scan_left_lem (right + 1 - left) a first left right (omega arith) in
      let (r0, r1, r2, r3) =
        scan_right_lem (right + 1 - l) a first l right (omega arith) (omega arith) in
      let t = stop-Scanned first left right end l r s l0 r0 in_end l2 r2 in
      elim (Bool-cases (leb r l)) [
        | inl e ↦
            rw (partition_loop, e)
              (
                (a, r),
                refl,
                (
                  refl-Permuted a,
                  omega (arith, leb→le _ _ e),
                  r0,
                  crossed-Scanned first l r end t (leb→le _ _ e) (λ v. r3 v),
                ),
              )
        | inr e ↦
            let less_r = not_leb→lt _ _ e in
            let u =
              swap-Scanned first l r end t (omega arith) less_r (omega arith) (l3 (omega arith))
                (r3 (omega arith)) in
            let (c, eq, q) =
              partition_loop-Splits fuel (swap a l r) first (l + 1) (r - 1) end (omega arith)
                (omega arith) (omega arith) in_n (omega arith) u in
            rw (partition_loop, e)
              (
                c,
                eq,
                (
                  trans-Permuted (swap-Permuted a l r (omega arith) (omega arith)) q.0,
                  q.1,
                  omega (arith, q.2),
                  q.3,
                ),
              )
      ]

module _ {A : Type 0} (compare : A → A → Sign) (n : ℕ) where
  median_first-Permuted :
      (a : ℕ → A) (first count : ℕ)
      → 0 < count
      → first + count ≤ n
      → Permuted n a (median_first compare a first count)
  median_first-Permuted a first count pos le =
      let mid = first + count / 2 in
      let last = first + count - 1 in
      let b = swap_if_less compare a mid first in
      let c = swap_if_less compare b last first in
      let d = swap_if_less compare c last mid in
      let p = swap_if_less-Permuted {n = n} compare a mid first (omega arith) (omega arith) in
      let q = swap_if_less-Permuted {n = n} compare b last first (omega arith) (omega arith) in
      let r = swap_if_less-Permuted {n = n} compare c last mid (omega arith) (omega arith) in
      trans-Permuted p (
        trans-Permuted q (trans-Permuted r (swap-Permuted d mid first (omega arith) (omega arith))))

  -- The array and the place of the pivot: everything before the pivot in the range compares below it
  -- or not above it, everything after it above it or not below it.
  abbrev pub Partitioned : (ℕ → A) → ℕ → ℕ → (ℕ → A) × ℕ → Type 1
  Partitioned a first count x =
      Permuted n a x.0
      × (first ≤ x.1)
      × (x.1 < first + count)
      × ((k : ℕ) → first ≤ k → k < x.1 → NotAfter compare (x.0 k) (x.0 x.1))
      × ((k : ℕ) → x.1 < k → k < first + count → NotAfter compare (x.0 x.1) (x.0 k))

  -- The exchange of the pivot with the element that `right` stops at.
  place_pivot-Partitioned :
      (a b : ℕ → A) (first count r : ℕ) (p : A)
      → 0 < count
      → first + count ≤ n
      → Split compare p n a first (first + count - 1) (first + count) (b, r)
      → Partitioned a first count (swap b first r, r)
  place_pivot-Partitioned a b first count r p pos le (q, lo, hi, s) =
      let here : swap b first r r ≡ p = swap-second b first r ∙ s.pivot in
      (
        trans-Permuted q (swap-Permuted b first r (omega arith) (omega arith)),
        lo,
        omega arith,
        λ k u v.
            subst (NotAfter compare (swap b first r k)) (sym here) (elim (Bool-cases (first == k)) [
              | inl e ↦
                  subst (λ j. NotAfter compare (swap b first r j) p) (==→eq _ _ e)
                    (subst (λ x. NotAfter compare x p) (sym (swap-first b first r))
                      (s.passed_left r (omega (arith, ==→eq _ _ e)) (omega arith)))
              | inr e ↦
                  subst (λ x. NotAfter compare x p)
                    (sym (swap-other b first r k (not_==→ne _ _ e) (omega arith)))
                    (s.passed_left k (omega (arith, not_==→ne _ _ e)) (omega arith))
            ]),
        λ k u v.
            subst (λ x. NotAfter compare x (swap b first r k)) (sym here)
              (subst (NotAfter compare p) (sym (swap-other b first r k (omega arith) (omega arith)))
                (s.passed_right k u v)),
      )

  -- `partition` of a range of two or more elements ends, exchanges elements only, and returns a place in
  -- the range: whatever the comparison answers, everything before that place in the range compares
  -- below its element or not above it, and everything after it above it or not below it.
  pub partition-Partitioned :
      (a : ℕ → A) (first count : ℕ)
      → 1 < count
      → first + count ≤ n
      → Yields (Partitioned a first count) (partition compare a first count)
  partition-Partitioned a first count two le =
      let m = median_first compare a first count in
      let (b, e, s) =
        partition_loop-Splits compare count m first (first + 1) (first + count - 1) (first + count)
          (omega arith) (omega arith) (omega arith) le (omega arith)
          (record {
            pivot = refl;
            passed_left = λ k u v. absurd (omega arith);
            passed_right = λ k u v. absurd (omega arith);
          }) in
      let (q, r0, r1, r2, r3) =
        place_pivot-Partitioned m b.0 first count b.1 (m first) (omega arith) le s in
      rw e (
        (swap b.0 first b.1, b.1),
        refl,
        (trans-Permuted (median_first-Permuted a first count (omega arith) le) q, r0, r1, r2, r3),
      )
