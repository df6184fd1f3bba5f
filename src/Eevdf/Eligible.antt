-- ===== src/Eevdf/Eligible.antt =====
-- kernel/src/sched/eevdf.cpp: `is_eligible_at`, a comparison with virtual time that is multiplied
-- through, and the lowest virtual runtime that each node keeps.
use erebus.Base.{
  ℕ, ◌*◌, ◌/◌, ◌%◌, ◌^◌, ◌≤◌, ◌<◌, ◌≡◌, refl, ◌∙◌, min, Bool, true, false, ◌||◌, ◌↔◌, Option, none,
  some, List, [], ◌∷◌, ◌++◌, arith, tests, leb, if◌then◌else◌, All, All-left, All-right, Bool-cases,
  inl, inr, leb→le, le→leb,
}
use erebus.Avl.{leaf, node, item_of}
use erebus.Avl.Balance.{IsValid}
use erebus.Avl.Order.{IsStrictWeak}
use erebus.Avl.Shape.{to_list}
use erebus.Eevdf.Entities.{Entity}
use erebus.Eevdf.{
  EevdfQueue, EntityTree, tree_traits, lower, virtual_time, is_eligible_at, is_eligible,
  has_eligible, leftmost_eligible,
}

pub mul_lt : (a b m n : ℕ) → a < m → b < n → a * b < m * n
mul_lt a b m n h k = grind arith

pub mul_mono : (a b c : ℕ) → b ≤ c → a * b ≤ a * c
mul_mono a b c h = grind arith

-- Deadlines are a strict weak order.
pub deadlines : IsStrictWeak tree_traits.less
deadlines = record { asymmetric = λ a b h. ground arith; cotransitive = λ a b c h k. ground arith }

pub div_iff : (w v n : ℕ) → 0 < w → (w * v ≤ n) ↔ (v ≤ n / w)
div_iff w v n h = (λ k. grind arith, λ k. grind arith)

pub div_lt : (w n m : ℕ) → n < w * m → n / w < m
div_lt w n m h = grind arith

-- Virtual time is the weighted average, rounded down, where that fits its word.
pub virtual_time_lem :
    (q : EevdfQueue)
    → 0 < q.total_weight
    → q.weighted_vruntime < q.total_weight * 2 ^ 64
    → virtual_time q ≡ q.weighted_vruntime / q.total_weight
unfolding virtual_time
virtual_time_lem q p n =
    let b = div_lt q.total_weight q.weighted_vruntime (2 ^ 64) n in ground arith

-- An entity's numbers fit their words, and its weight is not zero, as `set_weight` has it.
pub record IsWord (e : Entity) : Type 0 where
  pub vruntime : e.vruntime < 2 ^ 64
  pub weight : 0 < e.weight

abbrev pub any : (Entity → Bool) → List Entity → Bool
any p [] = false
any p (e ∷ es) = p e || any p es

abbrev pub find_first : (Entity → Bool) → List Entity → Option Entity
find_first p [] = none
find_first p (e ∷ es) = if p e then some e else find_first p es

any-append : (p : Entity → Bool) (xs ys : List Entity) → any p (xs ++ ys) ≡ any p xs || any p ys
any-append p [] ys = refl
any-append p (x ∷ xs) ys = ground (arith, any-append p xs ys)

or_rotate : (a b c : Bool) → (a || b) || c ≡ b || (a || c)
or_rotate a b c = ground arith

find_first-append :
    (p : Entity → Bool) (xs ys : List Entity)
    → find_first p (xs ++ ys) ≡ (if any p xs then find_first p xs else find_first p ys)
find_first-append p [] ys = refl
find_first-append p (x ∷ xs) ys = ground (arith, find_first-append p xs ys)

module _ (q : EevdfQueue) (small : q.total_weight < 2 ^ 64) where
  pub eligible_of_lt :
      (v : ℕ) → v < 2 ^ 64 → is_eligible_at q v ≡ leb (q.total_weight * v) q.weighted_vruntime
  unfolding is_eligible_at
  eligible_of_lt v h =
      let b = mul_lt q.total_weight v (2 ^ 64) (2 ^ 64) small h in
      let e : q.total_weight * v % 2 ^ 128 ≡ q.total_weight * v = omega arith in rw e

  pub is_eligible_iff :
      (v : ℕ)
      → v < 2 ^ 64
      → 0 < q.total_weight
      → q.weighted_vruntime < q.total_weight * 2 ^ 64
      → (is_eligible_at q v ≡ true) ↔ (v ≤ virtual_time q)
  is_eligible_iff v h p n =
      let d = div_iff q.total_weight v q.weighted_vruntime p in
      rw (virtual_time_lem q p n, eligible_of_lt v h)
        (λ e. d.0 (leb→le _ _ e), λ l. le→leb _ _ (d.1 l))

  eligible_mono :
      (a b : ℕ) → b < 2 ^ 64 → a ≤ b → is_eligible_at q b ≡ true → is_eligible_at q a ≡ true
  eligible_mono a b h l e =
      let m : q.total_weight * a ≤ q.total_weight * b = grind arith in
      let k = leb→le (q.total_weight * b) q.weighted_vruntime (rw (eligible_of_lt b h) at e) in
      rw (eligible_of_lt a (omega arith)) (le→leb _ _ (omega arith))

  eligible-min :
      (a b : ℕ)
      → a < 2 ^ 64
      → b < 2 ^ 64
      → is_eligible_at q (min a b) ≡ is_eligible_at q a || is_eligible_at q b
  eligible-min a b h k = elim (Bool-cases (leb a b)) [
    | inl e ↦
        let m : min a b ≡ a = omega tests in
        rw m (ground (arith, eligible_mono a b k (leb→le a b e)))
    | inr e ↦
        let m : min a b ≡ b = omega tests in
        rw m (ground (arith, eligible_mono b a h (omega tests)))
  ]

  kept-lt :
      (s : EntityTree) (v : ℕ)
      → v < 2 ^ 64
      → IsValid tree_traits s
      → All IsWord (to_list s)
      → lower (item_of s) v < 2 ^ 64
  kept-lt leaf v h i w = h
  kept-lt (node l x m k r) v h (e, p, q, u, vl, vr) w =
      let wr = All-right IsWord (to_list l) (x ∷ to_list r) w in
      let a =
        kept-lt l x.vruntime wr.0.vruntime vl (All-left IsWord (to_list l) (x ∷ to_list r) w) in
      let b = kept-lt r (lower (item_of l) x.vruntime) a vr wr.1 in omega arith

  kept-node-lt :
      (l : EntityTree) (x : Entity) (m k : ℕ) (r : EntityTree)
      → IsValid tree_traits (node l x m k r)
      → All IsWord (to_list (node l x m k r))
      → m < 2 ^ 64
  kept-node-lt l x m k r (e, p, p', u, vl, vr) w =
      let wr = All-right IsWord (to_list l) (x ∷ to_list r) w in
      let a =
        kept-lt l x.vruntime wr.0.vruntime vl (All-left IsWord (to_list l) (x ∷ to_list r) w) in
      rw u (kept-lt r (lower (item_of l) x.vruntime) a vr wr.1)

  eligible-lower :
      (s : EntityTree) (v : ℕ)
      → v < 2 ^ 64
      → IsValid tree_traits s
      → All IsWord (to_list s)
      → is_eligible_at q (lower (item_of s) v) ≡ is_eligible_at q v || has_eligible q s
  unfolding has_eligible
  eligible-lower leaf v h i w = ground arith
  eligible-lower (node l x m k r) v h i w = eligible-min v m h (kept-node-lt l x m k r i w)

  -- A tree's root has an eligible entity below it exactly if the lowest virtual runtime that it
  -- keeps is eligible.
  has_eligible_lem :
      (s : EntityTree)
      → IsValid tree_traits s
      → All IsWord (to_list s)
      → has_eligible q s ≡ any (is_eligible q) (to_list s)
  unfolding has_eligible
  has_eligible_lem leaf i w = refl
  has_eligible_lem (node l x m k r) (e, p, p', u, vl, vr) w =
      let wl = All-left IsWord (to_list l) (x ∷ to_list r) w in
      let wr = All-right IsWord (to_list l) (x ∷ to_list r) w in
      rw (u, any-append (is_eligible q) (to_list l) (x ∷ to_list r))
        (eligible-lower r (lower (item_of l) x.vruntime) (kept-lt l x.vruntime wr.0.vruntime vl wl)
            vr wr.1
          ∙ rw
              (
                eligible-lower l x.vruntime wr.0.vruntime vl wl,
                has_eligible_lem l vl wl,
                has_eligible_lem r vr wr.1,
              )
              (or_rotate (is_eligible q x) (any (is_eligible q) (to_list l))
                (any (is_eligible q) (to_list r))))

  -- The walk of `pick` finds the first eligible entity in order of deadlines.
  pub leftmost_eligible_lem :
      (s : EntityTree)
      → IsValid tree_traits s
      → All IsWord (to_list s)
      → leftmost_eligible q s ≡ find_first (is_eligible q) (to_list s)
  unfolding leftmost_eligible
  leftmost_eligible_lem leaf i w = refl
  leftmost_eligible_lem (node l x m k r) (e, p, p', u, vl, vr) w =
      let wl = All-left IsWord (to_list l) (x ∷ to_list r) w in
      let wr = All-right IsWord (to_list l) (x ∷ to_list r) w in
      rw
        (
          find_first-append (is_eligible q) (to_list l) (x ∷ to_list r),
          ← has_eligible_lem l vl wl,
          ← leftmost_eligible_lem l vl wl,
          ← leftmost_eligible_lem r vr wr.1,
        )
        (ground arith)
