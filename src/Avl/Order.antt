-- ===== src/Avl/Order.antt =====
-- kernel/include/utils/avl_tree.hpp: the tree as an ordered sequence of its items, under a `less`
-- that is a strict weak order.
use erebus.Base.{
  ◌≡◌, refl, Bool, true, false, List, [], ◌∷◌, ◌++◌, inl, inr, Bool-cases, ap, ◌∙◌, append-nil,
  append_assoc, All, All-append, All-left, All-right, if◌then◌else◌, subst,
}
use erebus.Avl.{
  Tree, leaf, node, Frame, from_left, from_right, Traits, Position, rebalance, descend, insert,
  erase, refresh,
}
use erebus.Avl.Balance.{IsValid, insert-IsValid, erase-IsValid}
use erebus.Avl.Shape.{
  to_list, before, after, preceding, following, At, to_list-At, rebalance_upwards-to_list,
  erase-to_list, At-IsPosition,
}

-- What the tree needs of `Traits::less`.
pub record IsStrictWeak {A : Type 0} (less : A → A → Bool) : Type 0 where
  pub asymmetric : (a b : A) → less a b ≡ true → less b a ≡ false
  pub cotransitive : (a b c : A) → less a c ≡ true → less a b ≡ false → less b c ≡ true

module _ {A : Type 0} (less : A → A → Bool) where
  -- No item is less than one before it.
  abbrev pub IsSorted : List A → Type 0
  IsSorted [] = Unit
  IsSorted (x ∷ xs) = All (λ y. less y x ≡ false) xs × IsSorted xs

  -- Insertion into a sequence, behind the items that compare equal.
  unfoldable pub place : A → List A → List A
  place x [] = x ∷ []
  place x (y ∷ ys) = if less x y then x ∷ y ∷ ys else y ∷ place x ys

  pub IsSorted-left : (xs ys : List A) → IsSorted (xs ++ ys) → IsSorted xs
  IsSorted-left [] ys s = tt
  IsSorted-left (x ∷ xs) ys (h, s) = (All-left _ xs ys h, IsSorted-left xs ys s)

  pub IsSorted-right : (xs ys : List A) → IsSorted (xs ++ ys) → IsSorted ys
  IsSorted-right [] ys s = s
  IsSorted-right (x ∷ xs) ys (h, s) = IsSorted-right xs ys s

  -- Nothing behind a middle item is less than it, and it is not less than anything before it.
  pub IsSorted-middle :
      (xs : List A) (y : A) (ys : List A) → IsSorted (xs ++ y ∷ ys) → All (λ x. less y x ≡ false) xs
  IsSorted-middle [] y ys s = tt
  IsSorted-middle (x ∷ xs) y ys (h, s) = ((All-right _ xs (y ∷ ys) h).0, IsSorted-middle xs y ys s)

  pub IsSorted-drop :
      (xs : List A) (y : A) (ys : List A) → IsSorted (xs ++ y ∷ ys) → IsSorted (xs ++ ys)
  IsSorted-drop [] y ys s = s.1
  IsSorted-drop (x ∷ xs) y ys (h, s) = (
    All-append _ xs ys (All-left _ xs (y ∷ ys) h) (All-right _ xs (y ∷ ys) h).1,
    IsSorted-drop xs y ys s,
  )

  place_left :
      (x y : A) (xs ys : List A) → less x y ≡ true → place x (xs ++ y ∷ ys) ≡ place x xs ++ y ∷ ys
  unfolding place
  place_left x y [] ys e = rw e
  place_left x y (z ∷ xs) ys e = elim (Bool-cases (less x z)) [
    | inl f ↦ rw f
    | inr f ↦ rw f (ap (λ l. z ∷ l) (place_left x y xs ys e))
  ]

  place_right :
      (x y : A) (xs ys : List A)
      → All (λ z. less x z ≡ false) xs
      → less x y ≡ false
      → place x (xs ++ y ∷ ys) ≡ xs ++ y ∷ place x ys
  unfolding place
  place_right x y [] ys h e = rw e
  place_right x y (z ∷ xs) ys (f, h) e = rw f (ap (λ l. z ∷ l) (place_right x y xs ys h e))

  All-place : (P : A → Type 0) (x : A) (xs : List A) → P x → All P xs → All P (place x xs)
  unfolding place
  All-place P x [] p h = (p, tt)
  All-place P x (y ∷ ys) p h = elim (Bool-cases (less x y)) [
    | inl e ↦ rw e (p, h)
    | inr e ↦ rw e (h.0, All-place P x ys p h.1)
  ]

module _ {A : Type 0} (less : A → A → Bool) (w : IsStrictWeak less) where
  -- What is not less than `y` is not less than what `y` is not less than.
  All-below :
      (x y : A) (xs : List A)
      → less x y ≡ false
      → All (λ z. less y z ≡ false) xs
      → All (λ z. less x z ≡ false) xs
  All-below x y [] e h = tt
  All-below x y (z ∷ zs) e (f, h) = (
    elim (Bool-cases (less x z)) [
      | inl g ↦ absurd (no_both (w.cotransitive x y z g e) f)
      | inr g ↦ g
    ],
    All-below x y zs e h,
  )
    where
      no_both : less y z ≡ true → less y z ≡ false → ⊥
      no_both p q = cc

  All-above :
      (x y : A) (xs : List A)
      → less x y ≡ true
      → All (λ z. less z y ≡ false) xs
      → All (λ z. less z x ≡ false) xs
  All-above x y [] e h = tt
  All-above x y (z ∷ zs) e (f, h) = (
    elim (Bool-cases (less z x)) [
      | inl g ↦ absurd (no_both (w.cotransitive x z y e (w.asymmetric z x g)) f)
      | inr g ↦ g
    ],
    All-above x y zs e h,
  )
    where
      no_both : less z y ≡ true → less z y ≡ false → ⊥
      no_both p q = cc

  pub place-IsSorted : (x : A) (xs : List A) → IsSorted less xs → IsSorted less (place less x xs)
  unfolding place
  place-IsSorted x [] s = (tt, tt)
  place-IsSorted x (y ∷ ys) (h, s) = elim (Bool-cases (less x y)) [
    | inl e ↦ rw e ((w.asymmetric x y e, All-above x y ys e h), (h, s))
    | inr e ↦ rw e (All-place less (λ z. less z y ≡ false) x ys e h, place-IsSorted x ys s)
  ]

module _ {A M : Type 0} (t : Traits A M) (w : IsStrictWeak t.less) where
  descend-place :
      (x : A) (s : Tree A M) (fs : List (Frame A M))
      → IsSorted t.less (to_list s)
      → before (descend t x s fs) ++ x ∷ after (descend t x s fs)
        ≡ before fs ++ place t.less x (to_list s) ++ after fs
  unfolding descend place
  descend-place x leaf fs o = simp append_assoc
  descend-place x (node l y m h r) fs o = elim (Bool-cases (t.less x y)) [
    | inl e ↦
        rw (e, descend)
          (descend-place x l (from_left y r ∷ fs)
              (IsSorted-left t.less (to_list l) (y ∷ to_list r) o)
            ∙ simp (place_left t.less x y (to_list l) (to_list r) e, append_assoc))
    | inr e ↦
        rw (e, descend)
          (descend-place x r (from_right l y ∷ fs)
              (IsSorted-right t.less (to_list l) (y ∷ to_list r) o).1
            ∙ simp (
              place_right t.less x y (to_list l) (to_list r)
                  (All-below t.less w x y (to_list l) e
                    (IsSorted-middle t.less (to_list l) y (to_list r) o))
                  e,
              append_assoc,
            ))
  ]

  -- `insert` puts the item behind the items that it compares equal to, and leaves the others in
  -- their order.
  pub insert-place :
      (x : A) (s : Tree A M)
      → IsSorted t.less (to_list s)
      → to_list (insert t x s) ≡ place t.less x (to_list s)
  unfolding insert
  insert-place x s o =
      rebalance_upwards-to_list t (rebalance t leaf x leaf) (descend t x s [])
      ∙ ap (λ l. before (descend t x s []) ++ l ++ after (descend t x s []))
          (let e : to_list (rebalance t leaf x leaf) ≡ x ∷ [] = unfold rebalance refresh in refl in
            e)
      ∙ simp append_assoc (simp (append-nil, append_assoc) at (descend-place x s [] o))

-- The items of a valid tree in order: what `is_consistent` checks of a tree, in full.
pub record IsOrdered {A M : Type 0} (t : Traits A M) (s : Tree A M) : Type 0 where
  pub valid : IsValid t s
  pub sorted : IsSorted t.less (to_list s)

module _ {A M : Type 0} (t : Traits A M) (w : IsStrictWeak t.less) where
  -- `insert` into a valid, sorted tree gives one, and its items are those of the old tree with the
  -- new one placed behind all that it compares equal to.
  pub insert_lem :
      (x : A) (s : Tree A M)
      → IsOrdered t s
      → IsOrdered t (insert t x s) × (to_list (insert t x s) ≡ place t.less x (to_list s))
  insert_lem x s v =
      let e = insert-place t w x s v.sorted in
      (
        record {
          valid = insert-IsValid t x s v.valid;
          sorted = rw e (place-IsSorted t.less w x (to_list s) v.sorted);
        },
        e,
      )

  -- `erase` of a node of a valid, sorted tree gives one, and its items are the old ones without
  -- that node's, in their order.
  pub erase_lem :
      (s : Tree A M) (p : Position A M)
      → IsOrdered t s
      → At s p
      → IsOrdered t (erase t p)
        × (to_list s ≡ preceding p ++ p.item ∷ following p)
        × (to_list (erase t p) ≡ preceding p ++ following p)
  erase_lem s p v a =
      let e = to_list-At s p a in
      let d = erase-to_list t p in
      let o = subst (IsSorted t.less) e v.sorted in
      (
        record {
          valid = erase-IsValid t p _ (At-IsPosition t s p v.valid a);
          sorted = rw d (IsSorted-drop t.less (preceding p) p.item (following p) o);
        },
        e,
        d,
      )
