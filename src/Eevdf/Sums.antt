-- ===== src/Eevdf/Sums.antt =====
-- kernel/src/sched/eevdf.cpp: the running totals as sums over the entities, and the nodes that
-- `locate` finds.
use erebus.Base.{
  ℕ, ◌+◌, ◌*◌, ◌^◌, ◌≤◌, ◌<◌, ◌≡◌, refl, Bool, Option, none, some, List, [], ◌∷◌, ◌++◌, arith, ◌==◌,
  All, Bool-cases, ==→eq, inl, inr, length,
}
use erebus.Avl.{leaf, node, Frame, from_left, from_right, Position}
use erebus.Avl.Order.{place}
use erebus.Avl.Shape.{to_list, Within, here, down_left, down_right, At}
use erebus.Eevdf.Entities.{Entity}
use erebus.Eevdf.Eligible.{IsWord}
use erebus.Eevdf.{EevdfQueue, EntityTree, locate_in, or_else}

abbrev pub total : (Entity → ℕ) → List Entity → ℕ
total f [] = 0
total f (e ∷ es) = f e + total f es

abbrev pub weighted : Entity → ℕ
weighted e = e.weight * e.vruntime

abbrev pub weight_of : Entity → ℕ
weight_of e = e.weight

abbrev pub one_each : Entity → ℕ
one_each e = 1

abbrev pub option_list : Option Entity → List Entity
option_list none = []
option_list (some e) = e ∷ []

-- Every entity that takes part: the running one and the waiting ones.
abbrev pub members : EevdfQueue → List Entity
members q = option_list q.current ++ to_list q.tree

module _ (f : Entity → ℕ) where
  pub total-append : (xs ys : List Entity) → total f (xs ++ ys) ≡ total f xs + total f ys
  total-append [] ys = omega arith
  total-append (x ∷ xs) ys = omega (arith, total-append xs ys)

  pub total-place :
      (less : Entity → Entity → Bool) (x : Entity) (xs : List Entity)
      → total f (place less x xs) ≡ f x + total f xs
  unfolding place
  total-place less x [] = refl
  total-place less x (y ∷ ys) = elim (Bool-cases (less x y)) [
    | inl e ↦ rw e
    | inr e ↦ rw e (omega (arith, total-place less x ys))
  ]

pub length-total : (xs : List Entity) → length xs ≡ total one_each xs
length-total [] = refl
length-total (x ∷ xs) = omega (arith, length-total xs)

pub All-place :
    (P : Entity → Type 0) (less : Entity → Entity → Bool) (x : Entity) (xs : List Entity)
    → P x
    → All P xs
    → All P (place less x xs)
unfolding place
All-place P less x [] p h = (p, tt)
All-place P less x (y ∷ ys) p h = elim (Bool-cases (less x y)) [
  | inl e ↦ rw e (p, h)
  | inr e ↦ rw e (h.0, All-place P less x ys p h.1)
]

pub mul-add-le : (a b m : ℕ) → b < m → a * b + a ≤ a * m
mul-add-le a b m p = grind arith

-- The weighted sum is below the sum of the weights times the range of a word.
pub total-weighted-lt :
    (xs : List Entity)
    → All IsWord xs
    → total weighted xs + total weight_of xs ≤ total weight_of xs * 2 ^ 64
total-weighted-lt [] w = omega arith
total-weighted-lt (x ∷ xs) w =
    let h : x.weight * x.vruntime + x.weight ≤ x.weight * 2 ^ 64 =
      mul-add-le x.weight x.vruntime (2 ^ 64) w.0.vruntime in
    omega (arith, total-weighted-lt xs w.1)

-- What `locate` finds is a node of the tree, and has the id.
abbrev Found : EntityTree → ℕ → Option (Position Entity ℕ) → Type 0
Found t id none = Unit {0}
Found t id (some p) = At t p × (p.item.id ≡ id)

Found-or_else :
    (t : EntityTree) (id : ℕ) (a b : Option (Position Entity ℕ))
    → Found t id a
    → Found t id b
    → Found t id (or_else a b)
Found-or_else t id none b h k = k
Found-or_else t id (some p) b h k = h

locate_in-Found :
    (t : EntityTree) (id : ℕ) (s : EntityTree) (fs : List (Frame Entity ℕ))
    → Within t s fs
    → Found t id (locate_in id s fs)
unfolding locate_in
locate_in-Found t id leaf fs w = tt
locate_in-Found t id (node l x m h r) fs w =
    let a = locate_in-Found t id l (from_left x r ∷ fs) (down_left w) in
    let b = locate_in-Found t id r (from_right l x ∷ fs) (down_right w) in
    elim (Bool-cases (x.id == id)) [
      | inl e ↦ rw e (record { m = m; h = h; within = w }, ==→eq x.id id e)
      | inr e ↦ rw e (Found-or_else t id _ _ a b)
    ]

pub locate_lem :
    (t : EntityTree) (id : ℕ) (p : Position Entity ℕ)
    → locate_in id t [] ≡ some p
    → At t p × (p.item.id ≡ id)
locate_lem t id p e = rw e at (locate_in-Found t id t [] here)
