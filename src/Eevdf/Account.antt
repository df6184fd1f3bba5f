-- ===== src/Eevdf/Account.antt =====
-- kernel/src/sched/eevdf.cpp: the invariant that `is_consistent` checks, and that every operation
-- keeps it.
use erebus.Base.{
  ℕ, ◌+◌, ◌*◌, ◌^◌, ◌≤◌, ◌<◌, ◌≡◌, refl, ◌∙◌, sym, some, List, [], ◌∷◌, ◌++◌, arith, All, subst, ap,
  ◌↔◌, ◌⊎◌, inl, inr, true, Bool-cases, ltb, ltb→lt, not_ltb→le, le→leb,
}
use erebus.Avl.{Position}
use erebus.Avl.Order.{place, IsOrdered, insert_lem, erase_lem}
use erebus.Avl.Shape.{to_list, preceding, following}
use erebus.Eevdf.Entities.{Entity}
use erebus.Eevdf.Eligible.{IsWord, deadlines, mul_lt, is_eligible_iff, eligible_of_lt}
use erebus.Eevdf.Sums.{
  total, weighted, weight_of, one_each, option_list, members, total-append, total-place,
  total-weighted-lt, locate_lem, mul-add-le,
}
use erebus.Eevdf.{
  EevdfQueue, tree_traits, account_join, locate, placed, joining_vruntime, insert_node, erase_node,
  virtual_time, is_eligible_at,
}

-- The running totals are the sums that they stand for, the tree is ordered and valid, and the
-- numbers fit their words.
pub record IsConsistent (q : EevdfQueue) : Type 0 where
  pub ordered : IsOrdered tree_traits q.tree
  pub weighted_sum : q.weighted_vruntime ≡ total weighted (members q)
  pub weight_sum : q.total_weight ≡ total weight_of (members q)
  pub count : q.queued ≡ total one_each (to_list q.tree)
  pub words : All IsWord (members q)
  pub weight_fits : q.total_weight < 2 ^ 64
  pub count_fits : q.queued < 2 ^ 32
  pub time_fits : q.last_virtual_time < 2 ^ 64

-- The weighted sum is below what its 128 bits hold, by a whole total weight.
pub weighted-lt :
    (q : EevdfQueue)
    → IsConsistent q
    → q.weighted_vruntime + q.total_weight ≤ q.total_weight * 2 ^ 64
weighted-lt q c = omega (arith, c.weighted_sum, c.weight_sum, total-weighted-lt (members q) c.words)

-- In a consistent queue with somebody in it, an entity is eligible exactly if its virtual runtime, a
-- 64-bit word, is no later than the queue's virtual time, although the code compares without a
-- division. In one with nobody in it, every entity is eligible.
pub is_eligible_lem :
    (q : EevdfQueue) (v : ℕ)
    → IsConsistent q
    → v < 2 ^ 64
    → ((0 < q.total_weight) × ((is_eligible_at q v ≡ true) ↔ (v ≤ virtual_time q)))
      ⊎ ((q.total_weight ≡ 0) × (is_eligible_at q v ≡ true))
is_eligible_lem q v c h = elim (Bool-cases (ltb 0 q.total_weight)) [
  | inl e ↦
      let p = ltb→lt 0 q.total_weight e in
      let l = weighted-lt q c in inl (p, is_eligible_iff q c.weight_fits v h p (omega arith))
  | inr e ↦
      let z : q.total_weight ≡ 0 = omega (arith, not_ltb→le 0 q.total_weight e) in
      inr (z, rw (eligible_of_lt q c.weight_fits v h, z) (le→leb _ _ (omega arith)))
]

abbrev pub HasRoom : EevdfQueue → Entity → Type 0
HasRoom q e = record {
  weight : 0 < e.weight;
  sum : q.total_weight + e.weight < 2 ^ 64;
  count : q.queued + 1 < 2 ^ 32;
}

abbrev pub weight_total : EevdfQueue → ℕ
weight_total q = total weight_of (members q)

pub virtual_time-lt : (q : EevdfQueue) → q.last_virtual_time < 2 ^ 64 → virtual_time q < 2 ^ 64
unfolding virtual_time
virtual_time-lt q h = ground arith

pub joining_vruntime-lt :
    (q : EevdfQueue) (e : Entity) → q.last_virtual_time < 2 ^ 64 → joining_vruntime q e < 2 ^ 64
unfolding joining_vruntime
joining_vruntime-lt q e h = ground (arith, virtual_time-lt q h)

placed-fields :
    (q : EevdfQueue) (e : Entity)
    → ((placed q e).weight ≡ e.weight) × ((placed q e).vruntime ≡ joining_vruntime q e)
unfolding placed
placed-fields q e = (refl, refl)

pub placed-IsWord :
    (q : EevdfQueue) (e : Entity)
    → q.last_virtual_time < 2 ^ 64
    → 0 < e.weight
    → IsWord (placed q e)
placed-IsWord q e h w =
    let (a, b) = placed-fields q e in
    record { vruntime = rw b (joining_vruntime-lt q e h); weight = rw a w }

pub product-lt : (e : Entity) → IsWord e → e.weight < 2 ^ 64 → e.weight * e.vruntime < 2 ^ 128
product-lt e w h = let b = mul_lt e.weight e.vruntime (2 ^ 64) (2 ^ 64) h w.vruntime in omega arith

-- Adding an entity to the totals, with no wrap-around.
pub joins :
    (q : EevdfQueue) (e : Entity)
    → IsConsistent q
    → IsWord e
    → q.total_weight + e.weight < 2 ^ 64
    → ((account_join q e).weighted_vruntime ≡ q.weighted_vruntime + weighted e)
      × ((account_join q e).total_weight ≡ q.total_weight + e.weight)
unfolding account_join
joins q e c w h =
    let a = product-lt e w (omega arith) in
    let b = weighted-lt q c in
    let d = mul-add-le e.weight e.vruntime (2 ^ 64) w.vruntime in (omega arith, omega arith)

-- The sums over the members, for the running entity and the waiting ones apart.
abbrev pub sums : EevdfQueue → (Entity → ℕ) → ℕ
sums q f = total f (option_list q.current) + total f (to_list q.tree)

pub members-sums : (q : EevdfQueue) (f : Entity → ℕ) → total f (members q) ≡ sums q f
members-sums q f = total-append f (option_list q.current) (to_list q.tree)

-- What a change of the tree does to its items.
pub insert_node_lem :
    (q : EevdfQueue) (e : Entity)
    → IsOrdered tree_traits q.tree
    → IsOrdered tree_traits (insert_node q e).tree
      × (to_list (insert_node q e).tree ≡ place tree_traits.less e (to_list q.tree))
      × ((f : Entity → ℕ)
          → total f (to_list (insert_node q e).tree) ≡ f e + total f (to_list q.tree))
unfolding insert_node
insert_node_lem q e o =
    let (o', l) = insert_lem tree_traits deadlines e q.tree o in
    (o', l, λ f. ap (total f) l ∙ total-place f tree_traits.less e (to_list q.tree))

total_middle :
    (f : Entity → ℕ) (xs ys : List Entity) (e : Entity)
    → total f (xs ++ e ∷ ys) ≡ f e + total f (xs ++ ys)
total_middle f [] ys e = refl
total_middle f (x ∷ xs) ys e = omega (arith, total_middle f xs ys e)

pub All-middle :
    (P : Entity → Type 0) (xs ys : List Entity) (e : Entity)
    → All P (xs ++ e ∷ ys)
    → P e × All P (xs ++ ys)
All-middle P [] ys e h = h
All-middle P (x ∷ xs) ys e h = let (p, r) = All-middle P xs ys e h.1 in (p, (h.0, r))

-- A list with one occurrence of an entity taken out, and the others in their order.
abbrev pub Removed : List Entity → Entity → List Entity → Type 0
Removed xs e ys =
    (pre : List Entity) × (post : List Entity) × (xs ≡ pre ++ e ∷ post) × (ys ≡ pre ++ post)

pub erase_node-Removed :
    (q : EevdfQueue) (id : ℕ) (p : Position Entity ℕ)
    → IsOrdered tree_traits q.tree
    → locate q id ≡ some p
    → Removed (to_list q.tree) p.item (to_list (erase_node q p).tree)
unfolding erase_node locate
erase_node-Removed q id p o e =
    let (a, same) = locate_lem q.tree id p e in
    let (o', l, l') = erase_lem tree_traits deadlines q.tree p o a in
    (preceding p, following p, l, l')

pub erase_node_lem :
    (q : EevdfQueue) (id : ℕ) (p : Position Entity ℕ)
    → IsOrdered tree_traits q.tree
    → locate q id ≡ some p
    → IsOrdered tree_traits (erase_node q p).tree
      × (p.item.id ≡ id)
      × ((f : Entity → ℕ)
          → total f (to_list q.tree) ≡ f p.item + total f (to_list (erase_node q p).tree))
      × ((P : Entity → Type 0)
          → All P (to_list q.tree)
          → P p.item × All P (to_list (erase_node q p).tree))
unfolding erase_node locate
erase_node_lem q id p o e =
    let (a, same) = locate_lem q.tree id p e in
    let (o', l, l') = erase_lem tree_traits deadlines q.tree p o a in
    (
      o',
      same,
      λ f.
          ap (total f) l
          ∙ total_middle f (preceding p) (following p) p.item
          ∙ ap (λ n. f p.item + n) (ap (total f) (sym l')),
      λ P h.
          let (x, r) = All-middle P (preceding p) (following p) p.item (subst (All P) l h) in
          (x, subst (All P) (sym l') r),
    )
