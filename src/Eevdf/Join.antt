-- ===== src/Eevdf/Join.antt =====
-- kernel/src/sched/eevdf.cpp: the operations that put an entity in the tree keep the queue
-- consistent.
use erebus.Base.{
  ℕ, ◌+◌, ◌^◌, ◌<◌, ◌≡◌, refl, ◌∙◌, ◌||◌, Option, none, some, List, ◌++◌, arith, All, All-left,
  All-right, All-append, Bool-cases, inl, inr, subst, ap,
}
use erebus.Avl.Order.{place}
use erebus.Avl.Shape.{to_list}
use erebus.Eevdf.Entities.{Entity}
use erebus.Eevdf.Eligible.{IsWord}
use erebus.Eevdf.Sums.{total, weighted, weight_of, one_each, option_list, All-place}
use erebus.Eevdf.Account.{
  IsConsistent, HasRoom, joins, insert_node_lem, members-sums, placed-IsWord,
}
use erebus.Eevdf.{
  EevdfQueue, tree_traits, account_join, is_queued, is_current, placed, enqueue, insert_node,
  requeue_current,
}

pub All-option :
    (P : Entity → Type 0) (o : Option Entity) (xs : List Entity)
    → All P (option_list o ++ xs)
    → All P (option_list o) × All P xs
All-option P o xs h = (All-left P (option_list o) xs h, All-right P (option_list o) xs h)

join-IsConsistent :
    (q : EevdfQueue) (e : Entity)
    → IsConsistent q
    → IsWord e
    → q.total_weight + e.weight < 2 ^ 64
    → q.queued + 1 < 2 ^ 32
    → IsConsistent (insert_node (account_join q e) e)
      × (to_list (insert_node (account_join q e) e).tree
          ≡ place tree_traits.less e (to_list q.tree))
unfolding account_join insert_node
join-IsConsistent q e c w h k =
    let (o, l, t) = insert_node_lem q e c.ordered in
    let (a, b) = joins q e c w h in
    let m = members-sums q in
    let m' = members-sums (insert_node (account_join q e) e) in
    let (wc, wt) = All-option IsWord q.current (to_list q.tree) c.words in
    (
      record {
        ordered = o;
        weighted_sum = omega (arith, a, c.weighted_sum, m weighted, m' weighted, t weighted);
        weight_sum = omega (arith, b, c.weight_sum, m weight_of, m' weight_of, t weight_of);
        count = omega (arith, c.count, c.count_fits, t one_each);
        words =
            All-append IsWord (option_list q.current) _ wc
              (rw l (All-place IsWord tree_traits.less e (to_list q.tree) w wt));
        weight_fits = omega arith;
        count_fits = omega arith;
        time_fits = c.time_fits;
      },
      l,
    )

-- When the assertion of `enqueue` holds, it leaves the queue consistent: the entity stands in the
-- tree at its place by deadline, with the virtual runtime and deadline that `placed` gives it, and
-- the other waiting entities and the running one are untouched.
pub enqueue-IsConsistent :
    (q q' : EevdfQueue) (e : Entity)
    → IsConsistent q
    → HasRoom q e
    → enqueue q e ≡ some q'
    → IsConsistent q'
      × (to_list q'.tree ≡ place tree_traits.less (placed q e) (to_list q.tree))
      × (q'.current ≡ q.current)
unfolding enqueue
enqueue-IsConsistent q q' e c room h = elim (Bool-cases (is_queued q e.id || is_current q e.id)) [
  | inl b ↦ absurd (let k : none ≡ some q' = rw b at h in cc)
  | inr b ↦
      let k : some (insert_node (account_join q (placed q e)) (placed q e)) ≡ some q' = rw b at h in
      let k' : insert_node (account_join q (placed q e)) (placed q e) ≡ q' = cc in
      let (d, l) =
        join-IsConsistent q (placed q e) c (placed-IsWord q e c.time_fits room.weight) room.sum
          room.count in
      (
        subst IsConsistent k' d,
        subst (λ r. to_list r.tree ≡ place tree_traits.less (placed q e) (to_list q.tree)) k' l,
        subst (λ r. r.current ≡ q.current) k' refl,
      )
]

requeued-IsConsistent :
    (q : EevdfQueue) (x : Entity)
    → IsConsistent q
    → q.queued + 1 < 2 ^ 32
    → q.current ≡ some x
    → IsConsistent (record (insert_node q x) { current = none })
      × (to_list (insert_node q x).tree ≡ place tree_traits.less x (to_list q.tree))
unfolding insert_node
requeued-IsConsistent q x c k e =
    let (o, l, t) = insert_node_lem q x c.ordered in
    let s = λ (f : Entity → ℕ).
      members-sums q f ∙ ap (λ n. total f (option_list n) + total f (to_list q.tree)) e in
    let (wc, wt) = All-option IsWord q.current (to_list q.tree) c.words in
    let wx : IsWord x = (subst (λ n. All IsWord (option_list n)) e wc).0 in
    (
      record {
        ordered = o;
        weighted_sum = omega (arith, c.weighted_sum, s weighted, t weighted);
        weight_sum = omega (arith, c.weight_sum, s weight_of, t weight_of);
        count = omega (arith, c.count, c.count_fits, t one_each);
        words = rw l (All-place IsWord tree_traits.less x (to_list q.tree) wx wt);
        weight_fits = c.weight_fits;
        count_fits = omega arith;
        time_fits = c.time_fits;
      },
      l,
    )

-- `requeue_current` puts the running entity back among the waiting ones, as it is and at its place
-- by deadline; the queue stays consistent and nothing runs.
pub requeue_current-IsConsistent :
    (q q' : EevdfQueue) (x : Entity)
    → IsConsistent q
    → q.queued + 1 < 2 ^ 32
    → q.current ≡ some x
    → requeue_current q ≡ some q'
    → IsConsistent q'
      × (to_list q'.tree ≡ place tree_traits.less x (to_list q.tree))
      × (q'.current ≡ none)
unfolding requeue_current
requeue_current-IsConsistent q q' x c k e h =
    let (d, l) = requeued-IsConsistent q x c k e in
    let h' : some (record (insert_node q x) { current = none }) ≡ some q' =
      simp (e, requeue_current) at h in
    let k' : record (insert_node q x) { current = none } ≡ q' = cc in
    (
      subst IsConsistent k' d,
      subst (λ r. to_list r.tree ≡ place tree_traits.less x (to_list q.tree)) k' l,
      subst (λ r. r.current ≡ none) k' refl,
    )
