-- ===== src/Avl/Walk.antt =====
-- kernel/include/utils/avl_tree.hpp: the walks of `first`, `last`, `next` and `prev` against the
-- items in order, and the checks of `is_consistent`.
use mathlib.Core.List.{head?, get_last?}
use erebus.Base.{◌≡◌, refl, some, List, [], ◌∷◌, ◌++◌, sym, append-nil, append_assoc}
use erebus.Avl.{
  Tree, leaf, node, Frame, from_left, from_right, Position, first, first_from, last, last_from,
  next, prev, climb_next, climb_prev, next_in, prev_in,
}
use erebus.Avl.Shape.{to_list, before, after, preceding, following, At, to_list-At}

module _ {A : Type 0} where
  get_last?-append :
      (xs : List A) (y : A) (ys : List A) → get_last? (xs ++ y ∷ ys) ≡ get_last? (y ∷ ys)
  get_last?-append [] y ys = refl
  get_last?-append (a ∷ []) y ys = refl
  get_last?-append (a ∷ b ∷ xs) y ys = get_last?-append (b ∷ xs) y ys

module _ {A M : Type 0} where
  first_from-head :
      (l : Tree A M) (x : A) (ys : List A) → head? (to_list l ++ x ∷ ys) ≡ some (first_from l x)
  unfolding first_from
  first_from-head leaf x ys = refl
  first_from-head (node l y m h r) x ys = simp append_assoc (first_from-head l y _)

  last_from-last :
      (xs : List A) (x : A) (r : Tree A M) → get_last? (xs ++ x ∷ to_list r) ≡ some (last_from x r)
  unfolding last_from
  last_from-last xs x leaf = get_last?-append xs x []
  last_from-last xs x (node l y m h r) =
      simp append_assoc at (last_from-last (xs ++ x ∷ to_list l) y r)

  last-last : (s : Tree A M) → last s ≡ get_last? (to_list s)
  unfolding last
  last-last leaf = refl
  last-last (node l x m h r) = sym (last_from-last (to_list l) x r)

  climb_prev-last : (fs : List (Frame A M)) → climb_prev fs ≡ get_last? (before fs)
  unfolding climb_prev
  climb_prev-last [] = refl
  climb_prev-last (from_left y r ∷ fs) = climb_prev-last fs
  climb_prev-last (from_right l y ∷ fs) = sym (get_last?-append (before fs ++ to_list l) y [])

  prev_in-last :
      (l : Tree A M) (fs : List (Frame A M)) → prev_in l fs ≡ get_last? (before fs ++ to_list l)
  unfolding prev_in
  prev_in-last leaf fs = rw append-nil (climb_prev-last fs)
  prev_in-last (node l x m h r) fs =
      sym (simp append_assoc at (last_from-last (before fs ++ to_list l) x r))

  first-head : (s : Tree A M) → first s ≡ head? (to_list s)
  unfolding first
  first-head leaf = refl
  first-head (node l x m h r) = sym (first_from-head l x (to_list r))

  climb_next-head : (fs : List (Frame A M)) → climb_next fs ≡ head? (after fs)
  unfolding climb_next
  climb_next-head [] = refl
  climb_next-head (from_left y r ∷ fs) = refl
  climb_next-head (from_right l y ∷ fs) = climb_next-head fs

  next_in-head :
      (r : Tree A M) (fs : List (Frame A M)) → next_in r fs ≡ head? (to_list r ++ after fs)
  unfolding next_in
  next_in-head leaf fs = climb_next-head fs
  next_in-head (node l x m h r) fs =
      simp append_assoc (sym (first_from-head l x (to_list r ++ after fs)))

  -- At a node of a tree the items are those before it, its own and those after it; `next` gives the
  -- first item after it and `prev` the last one before it, or null where there is none. `first` and
  -- `last` give the ends of the whole sequence.
  pub walks :
      (s : Tree A M) (p : Position A M)
      → At s p
      → (to_list s ≡ preceding p ++ p.item ∷ following p)
        × (next p ≡ head? (following p))
        × (prev p ≡ get_last? (preceding p))
        × (first s ≡ head? (to_list s))
        × (last s ≡ get_last? (to_list s))
  unfolding next prev
  walks s p a = (
    to_list-At s p a,
    next_in-head p.right p.above,
    prev_in-last p.left p.above,
    first-head s,
    last-last s,
  )
