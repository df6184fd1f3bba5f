-- ===== src/Avl.antt =====
-- kernel/include/utils/avl_tree.hpp: the intrusive height-balanced search tree.
-- A node is a constructor, and the parent links above a node are a list of frames, nearest first,
-- so that a loop over `m_parent` is a recursion on that list. `Traits` is the section's parameter:
-- `less`, and `update`, which computes what an item keeps about its subtree (an `M`, apart from
-- the rest of the item, an `A`) from the item and its children. A node that is handed to an
-- operation is given by its position: its subtree and its frames.
pub mod Order
pub mod Balance
pub mod Bounds
pub mod Shape
pub mod Walk
mod Tests
use erebus.Base.{
  ℕ, ◌+◌, max, Bool, true, false, Option, none, some, List, [], ◌∷◌, ◌++◌, ◌&&◌, leb, ltb, not,
  ◌==◌, if◌then◌else◌,
}

pub data Tree (A M : Type 0) : Type 0 where
  leaf : Tree A M
  node : Tree A M → A → M → ℕ → Tree A M → Tree A M

-- What lies above a node: the parent, and the child on its other side.
pub data Frame (A M : Type 0) : Type 0 where
  from_left : A → Tree A M → Frame A M
  from_right : Tree A M → A → Frame A M

pub record Traits (A M : Type 0) : Type 0 where
  pub less : A → A → Bool
  pub update : A → Option (A × M) → Option (A × M) → M

-- A position in a tree: a node's children and item, and what is above it.
pub record Position (A M : Type 0) : Type 0 where
  pub left : Tree A M
  pub item : A
  pub right : Tree A M
  pub above : List (Frame A M)

module _ {A M : Type 0} where
  abbrev pub height : Tree A M → ℕ
  height leaf = 0
  height (node l x m h r) = h

  abbrev pub item_of : Tree A M → Option (A × M)
  item_of leaf = none
  item_of (node l x m h r) = some (x, m)

  unfoldable pub is_empty : Tree A M → Bool
  is_empty leaf = true
  is_empty (node l x m h r) = false

  -- `first` and `last`.
  unfoldable pub first_from : Tree A M → A → A
  first_from leaf x = x
  first_from (node l y m h r) x = first_from l y

  unfoldable pub first : Tree A M → Option A
  first leaf = none
  first (node l x m h r) = some (first_from l x)

  unfoldable pub last_from : A → Tree A M → A
  last_from x leaf = x
  last_from x (node l y m h r) = last_from y r

  unfoldable pub last : Tree A M → Option A
  last leaf = none
  last (node l x m h r) = some (last_from x r)

  -- The climbs of `next` and `prev`: up to the first ancestor that is reached from its left, or
  -- from its right.
  unfoldable pub climb_next : List (Frame A M) → Option A
  climb_next [] = none
  climb_next (from_left y r ∷ fs) = some y
  climb_next (from_right l y ∷ fs) = climb_next fs

  unfoldable pub climb_prev : List (Frame A M) → Option A
  climb_prev [] = none
  climb_prev (from_left y r ∷ fs) = climb_prev fs
  climb_prev (from_right l y ∷ fs) = some y

  unfoldable pub next_in : Tree A M → List (Frame A M) → Option A
  unfolding climb_next first_from
  next_in leaf fs = climb_next fs
  next_in (node l x m h r) fs = some (first_from l x)

  unfoldable pub prev_in : Tree A M → List (Frame A M) → Option A
  unfolding climb_prev last_from
  prev_in leaf fs = climb_prev fs
  prev_in (node l x m h r) fs = some (last_from x r)

  unfoldable pub next : Position A M → Option A
  unfolding next_in
  next p = next_in p.right p.above

  unfoldable pub prev : Position A M → Option A
  unfolding prev_in
  prev p = prev_in p.left p.above

  -- The walk to the lowest node of a right subtree: its item, its right child and its frames.
  unfoldable pub lowest : Tree A M → A → Tree A M → List (Frame A M) → Position A M
  lowest leaf x r fs = record { left = leaf; item = x; right = r; above = fs }
  lowest (node l y m h s) x r fs = lowest l y s (from_left x r ∷ fs)

module _ {A M : Type 0} (t : Traits A M) where
  -- `refresh` of a node with these children.
  unfoldable pub refresh : Tree A M → A → Tree A M → Tree A M
  refresh l x r = node l x (t.update x (item_of l) (item_of r)) (1 + max (height l) (height r)) r

  -- A rotation refreshes the node, then the pivot that takes its place. `rebalance_upwards` asserts
  -- that the pivot is there.
  unfoldable pub rotate_left : Tree A M → A → Tree A M → Tree A M
  rotate_left l x leaf = refresh l x leaf
  rotate_left l x (node pl px m h pr) = refresh (refresh l x pl) px pr

  unfoldable pub rotate_right : Tree A M → A → Tree A M → Tree A M
  rotate_right leaf x r = refresh leaf x r
  rotate_right (node pl px m h pr) x r = refresh pl px (refresh pr x r)

  -- The inner rotation, of the child on the taller side.
  unfoldable pub lean_left : Tree A M → Tree A M
  unfolding rotate_left
  lean_left leaf = leaf
  lean_left (node l x m h r) =
      if ltb (height l) (height r) then rotate_left l x r else node l x m h r

  unfoldable pub lean_right : Tree A M → Tree A M
  unfolding rotate_right
  lean_right leaf = leaf
  lean_right (node l x m h r) =
      if ltb (height r) (height l) then rotate_right l x r else node l x m h r

  -- One round of `rebalance_upwards`.
  unfoldable pub rebalance : Tree A M → A → Tree A M → Tree A M
  unfolding refresh rotate_left rotate_right lean_left lean_right
  rebalance l x r =
      if ltb (height r + 1) (height l)
      then rotate_right (lean_left l) x r
      else if ltb (height l + 1) (height r)
      then rotate_left l x (lean_right r)
      else refresh l x r

  -- The rounds above a subtree that has changed, to the root.
  unfoldable pub rebalance_upwards : Tree A M → List (Frame A M) → Tree A M
  unfolding rebalance
  rebalance_upwards s [] = s
  rebalance_upwards s (from_left y r ∷ fs) = rebalance_upwards (rebalance s y r) fs
  rebalance_upwards s (from_right l y ∷ fs) = rebalance_upwards (rebalance l y s) fs

  -- The walk of `insert` down to the empty link, with the frames that it leaves above.
  unfoldable pub descend : A → Tree A M → List (Frame A M) → List (Frame A M)
  descend x leaf fs = fs
  descend x (node l y m h r) fs = elim (t.less x y) [
    | true ↦ descend x l (from_left y r ∷ fs)
    | false ↦ descend x r (from_right l y ∷ fs)
  ]

  unfoldable pub insert : A → Tree A M → Tree A M
  unfolding descend rebalance_upwards
  insert x s = rebalance_upwards (rebalance leaf x leaf) (descend x s [])

  -- `erase` of a node: with two children the next node in order takes its place, and the climb
  -- starts at that node's old parent; otherwise the only child does, as it is.
  unfoldable pub erase_node : Tree A M → Tree A M → List (Frame A M) → Tree A M
  unfolding rebalance_upwards lowest
  erase_node leaf r fs = rebalance_upwards r fs
  erase_node (node l x m h s) leaf fs = rebalance_upwards (node l x m h s) fs
  erase_node (node l x m h s) (node rl rx n k rr) fs =
      let low = lowest rl rx rr [] in
      rebalance_upwards low.right (low.above ++ from_right (node l x m h s) low.item ∷ fs)

  unfoldable pub erase : Position A M → Tree A M
  unfolding erase_node
  erase p = erase_node p.left p.right p.above

  abbrev pub in_order : A → A → Bool
  in_order x y = not (t.less y x)

  abbrev pub child_before : Tree A M → A → Bool
  child_before leaf x = true
  child_before (node l y m h r) x = in_order y x

  abbrev pub child_after : A → Tree A M → Bool
  child_after x leaf = true
  child_after x (node l y m h r) = in_order x y

  -- `is_subtree_consistent`, whose checks of the links a tree of constructors meets.
  unfoldable pub is_subtree_consistent : Tree A M → Bool
  is_subtree_consistent leaf = true
  is_subtree_consistent (node l x m h r) =
      child_before l x
      && child_after x r
      && (leb (height l) (height r + 1)
          && leb (height r) (height l + 1)
          && h == 1 + max (height l) (height r))
      && is_subtree_consistent l
      && is_subtree_consistent r
