-- ===== src/Eevdf/Leave.antt =====
-- kernel/src/sched/eevdf.cpp: the operations that take an entity out of the tree or out of the
-- queue keep the queue consistent, and what lag an entity leaves with.
use erebus.Base.{
  ℕ, ◌+◌, ◌^◌, ◌<◌, ◌≡◌, refl, ◌∙◌, none, some, arith, All, Option-cases, inl, inr, subst, ap,
}
use erebus.Avl.{Position}
use erebus.Avl.Order.{IsOrdered}
use erebus.Avl.Shape.{to_list}
use erebus.Eevdf.Entities.{Entity}
use erebus.Eevdf.Eligible.{IsWord}
use erebus.Eevdf.Sums.{
  total, weighted, weight_of, one_each, option_list, members, total-weighted-lt, mul-add-le,
}
use erebus.Eevdf.Account.{
  IsConsistent, Removed, erase_node_lem, members-sums, product-lt, virtual_time-lt,
}
use erebus.Eevdf.Join.{All-option}
use erebus.Eevdf.{
  EevdfQueue, tree_traits, account_leave, erase_node, set_current, retire_current, locate,
  virtual_time, leaving_lag,
}

-- `set_current` takes the entity out of the tree and leaves all totals alone.
picked-IsConsistent :
    (q : EevdfQueue) (id : ℕ) (p : Position Entity ℕ)
    → IsConsistent q
    → q.current ≡ none
    → locate q id ≡ some p
    → IsConsistent (record (erase_node q p) { current = some p.item }) × (p.item.id ≡ id)
unfolding erase_node
picked-IsConsistent q id p c e l =
    let (o, same, t, al) = erase_node_lem q id p c.ordered l in
    let s = λ (f : Entity → ℕ).
      members-sums q f ∙ ap (λ n. total f (option_list n) + total f (to_list q.tree)) e in
    let (wx, w) = al IsWord (All-option IsWord q.current (to_list q.tree) c.words).1 in
    (
      record {
        ordered = o;
        weighted_sum = omega (arith, c.weighted_sum, s weighted, t weighted);
        weight_sum = omega (arith, c.weight_sum, s weight_of, t weight_of);
        count = omega (arith, c.count, c.count_fits, t one_each);
        words = (wx, w);
        weight_fits = c.weight_fits;
        count_fits = omega (arith, c.count_fits);
        time_fits = c.time_fits;
      },
      same,
    )

-- An entity that takes part leaves: `q` is the queue with it in the totals but no longer among
-- its members.
abbrev Without : EevdfQueue → Entity → Type 0
Without q e = record {
  ordered : IsOrdered tree_traits q.tree;
  weighted_sum : q.weighted_vruntime ≡ weighted e + total weighted (members q);
  weight_sum : q.total_weight ≡ weight_of e + total weight_of (members q);
  count : q.queued ≡ total one_each (to_list q.tree);
  word : IsWord e;
  words : All IsWord (members q);
  weight_fits : q.total_weight < 2 ^ 64;
  count_fits : q.queued < 2 ^ 32;
  time_fits : q.last_virtual_time < 2 ^ 64;
}

leave-IsConsistent :
    (q : EevdfQueue) (e : Entity) → Without q e → IsConsistent (account_leave q e).0
unfolding account_leave
leave-IsConsistent q e w =
    let b = product-lt e w.word (omega (arith, w.weight_sum, w.weight_fits)) in
    let d = total-weighted-lt (members q) w.words in
    let x = mul-add-le e.weight e.vruntime (2 ^ 64) w.word.vruntime in
    record {
      ordered = w.ordered;
      weighted_sum = omega (arith, b, d, x, w.weighted_sum, w.weight_sum, w.weight_fits);
      weight_sum = omega (arith, w.weight_sum, w.weight_fits);
      count = w.count;
      words = w.words;
      weight_fits = omega arith;
      count_fits = w.count_fits;
      time_fits = virtual_time-lt q w.time_fits;
    }

leave-totals :
    (q : EevdfQueue) (e : Entity)
    → Without q e
    → ((account_leave q e).0.total_weight + e.weight ≡ q.total_weight)
      × ((account_leave q e).0.weighted_vruntime + weighted e ≡ q.weighted_vruntime)
unfolding account_leave
leave-totals q e w =
    let c = leave-IsConsistent q e w in
    (omega (arith, c.weight_sum, w.weight_sum), omega (arith, c.weighted_sum, w.weighted_sum))

retired-Without :
    (q : EevdfQueue) (x : Entity)
    → IsConsistent q
    → q.current ≡ some x
    → Without (record q { current = none }) x
retired-Without q x c e =
    let s = λ (f : Entity → ℕ).
      members-sums q f ∙ ap (λ n. total f (option_list n) + total f (to_list q.tree)) e in
    let (wc, wt) = All-option IsWord q.current (to_list q.tree) c.words in
    record {
      ordered = c.ordered;
      weighted_sum = omega (arith, c.weighted_sum, s weighted);
      weight_sum = omega (arith, c.weight_sum, s weight_of);
      count = c.count;
      word = (subst (λ n. All IsWord (option_list n)) e wc).0;
      words = wt;
      weight_fits = c.weight_fits;
      count_fits = c.count_fits;
      time_fits = c.time_fits;
    }

-- `set_current` takes the waiting entity with the id out of the tree and makes it the running one;
-- the queue stays consistent and its totals are as they were.
pub set_current-IsConsistent :
    (q q' : EevdfQueue) (id : ℕ)
    → IsConsistent q
    → set_current q id ≡ some q'
    → IsConsistent q'
      × ((x : Entity) × (q'.current ≡ some x) × (x.id ≡ id))
      × (q'.total_weight ≡ q.total_weight)
      × (q'.weighted_vruntime ≡ q.weighted_vruntime)
unfolding set_current
set_current-IsConsistent q q' id c h = elim (Option-cases q.current) [
  | inr (x, e) ↦ absurd (let k : none ≡ some q' = simp (e, set_current) at h in cc)
  | inl e ↦ elim (Option-cases (locate q id)) [
    | inl l ↦ absurd (let k : none ≡ some q' = simp (e, l, set_current) at h in cc)
    | inr (p, l) ↦
        let k : some (record (erase_node q p) { current = some p.item }) ≡ some q' =
          simp (e, l, set_current) at h in
        let k' : record (erase_node q p) { current = some p.item } ≡ q' = cc in
        let (d, same) = picked-IsConsistent q id p c e l in
        subst
          (λ r.
            IsConsistent r
            × ((x : Entity) × (r.current ≡ some x) × (x.id ≡ id))
            × (r.total_weight ≡ q.total_weight)
            × (r.weighted_vruntime ≡ q.weighted_vruntime))
          k' (d, (p.item, refl, same), refl, refl)
  ]
]

-- A waiting entity has left the tree, with the lag that it has in the queue.
abbrev pub Left : EevdfQueue → EevdfQueue × Entity → Type 0
Left q (q', e') =
    (e : Entity) × Removed (to_list q.tree) e (to_list q'.tree)
    × (e' ≡ record e { vlag = leaving_lag q e })

-- `retire_current` takes the running entity out of the queue and its totals, as `dequeue` does a
-- waiting one.
pub retire_current-IsConsistent :
    (q q' : EevdfQueue) (x x' : Entity)
    → IsConsistent q
    → q.current ≡ some x
    → retire_current q ≡ some (q', x')
    → IsConsistent q'
      × (q'.current ≡ none)
      × (x'.id ≡ x.id)
      × (q'.total_weight + x.weight ≡ q.total_weight)
      × (q'.weighted_vruntime + weighted x ≡ q.weighted_vruntime)
      × (q'.last_virtual_time ≡ virtual_time q)
unfolding retire_current
retire_current-IsConsistent q q' x x' c e h =
    let w = retired-Without q x c e in
    let q1 : EevdfQueue = record q { current = none } in
    let k : some (account_leave q1 x) ≡ some (q', x') = simp (e, retire_current) at h in
    let k' : account_leave q1 x ≡ (q', x') = cc in
    subst
      (λ (r : EevdfQueue × Entity).
        IsConsistent r.0
        × (r.0.current ≡ none)
        × (r.1.id ≡ x.id)
        × (r.0.total_weight + x.weight ≡ q.total_weight)
        × (r.0.weighted_vruntime + weighted x ≡ q.weighted_vruntime)
        × (r.0.last_virtual_time ≡ virtual_time q))
      k'
      (
        leave-IsConsistent q1 x w,
        refl,
        refl,
        (leave-totals q1 x w).0,
        (leave-totals q1 x w).1,
        refl,
      )
