-- ===== src/Avl/Bounds.antt =====
-- kernel/include/utils/avl_tree.hpp: how tall a valid tree is, why its `std::int8_t` heights hold
-- it, and that `is_consistent` accepts what the operations make.
use native.Mathlib.Nat.{pow-suc}
use erebus.Base.{
  ℕ, zero, suc, ◌+◌, ◌*◌, ◌^◌, ◌≤◌, ◌<◌, ◌≡◌, refl, max, true, false, List, ◌∷◌, ◌++◌, arith, tests,
  length, length-append, ltb, Bool-cases, inl, inr, All, All-right, le→leb, eq→==,
}
use erebus.Avl.{Tree, leaf, node, Traits, height, is_subtree_consistent, child_before, child_after}
use erebus.Avl.Balance.{IsValid}
use erebus.Avl.Shape.{to_list}
use erebus.Avl.Order.{IsOrdered, IsSorted, IsSorted-left, IsSorted-right, IsSorted-middle}

module _ {A M : Type 0} (t : Traits A M) where
  -- A valid tree of height `2 * k` or more has `2 ^ k - 1` items or more: the height is at most
  -- about twice the logarithm of the number of items.
  pub pow-le-length :
      (k : ℕ) (s : Tree A M) → IsValid t s → 2 * k ≤ height s → 2 ^ k ≤ length (to_list s) + 1
  pow-le-length zero s v h = omega arith
  pow-le-length (suc k) leaf v h = absurd (omega arith)
  pow-le-length (suc k) (node l x m n r) (e, p, q, u, vl, vr) h = omega (
    arith,
    pow-suc 2 k,
    pow-le-length k l vl (omega arith),
    pow-le-length k r vr (omega arith),
    length-append (to_list l) (x ∷ to_list r),
  )

  -- No tree of fewer than 2^63 - 1 items has a height that `std::int8_t` cannot hold.
  pub height_fits : (s : Tree A M) → IsValid t s → length (to_list s) + 1 < 2 ^ 63 → height s < 128
  height_fits s v h = elim (Bool-cases (ltb (height s) 126)) [
    | inl e ↦ omega tests
    | inr e ↦ absurd (omega (tests, pow-le-length 63 s v (omega tests)))
  ]

  child_before_lem :
      (l : Tree A M) (x : A) (ys : List A)
      → IsSorted t.less (to_list l ++ x ∷ ys)
      → child_before t l x ≡ true
  child_before_lem leaf x ys o = refl
  child_before_lem (node a y m h b) x ys o =
      rw
        (All-right _ (to_list a) (y ∷ to_list b)
          (IsSorted-middle t.less (to_list (node a y m h b)) x ys o)).0

  child_after_lem :
      (x : A) (r : Tree A M) → All (λ y. t.less y x ≡ false) (to_list r) → child_after t x r ≡ true
  child_after_lem x leaf o = refl
  child_after_lem x (node a y m h b) o = rw (All-right _ (to_list a) (y ∷ to_list b) o).0

  -- `is_consistent` is true of every valid, sorted tree.
  pub IsOrdered-consistent : (s : Tree A M) → IsOrdered t s → is_subtree_consistent t s ≡ true
  unfolding is_subtree_consistent
  IsOrdered-consistent leaf o = refl
  IsOrdered-consistent (node l x m h r) o =
      let (e, p, q, u, vl, vr) = o.valid in
      let ol = IsSorted-left t.less (to_list l) (x ∷ to_list r) o.sorted in
      let oxr = IsSorted-right t.less (to_list l) (x ∷ to_list r) o.sorted in
      rw (
        child_before_lem l x (to_list r) o.sorted,
        child_after_lem x r oxr.0,
        IsOrdered-consistent l (record { valid = vl; sorted = ol }),
        IsOrdered-consistent r (record { valid = vr; sorted = oxr.1 }),
        le→leb (height l) (height r + 1) p,
        le→leb (height r) (height l + 1) q,
        eq→== h (1 + max (height l) (height r)) e,
      )
