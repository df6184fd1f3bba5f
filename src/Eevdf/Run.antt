-- ===== src/Eevdf/Run.antt =====
-- kernel/src/sched/eevdf.cpp: what happens to the running entity while it runs.
use erebus.Base.{
  ℕ, ◌+◌, ◌*◌, ◌%◌, ◌^◌, ◌≤◌, ◌<◌, ◌≡◌, ◌↔◌, refl, ◌∙◌, true, some, ◌∷◌, arith, ltb, if◌then◌else◌,
  not, All, Bool-cases, inl, inr, subst, ap, add64,
}
use erebus.Avl.Shape.{to_list}
use erebus.Eevdf.Entities.{Entity, to_virtual}
use erebus.Eevdf.Eligible.{IsWord}
use erebus.Eevdf.Sums.{total, weighted, weight_of, option_list, total-weighted-lt}
use erebus.Eevdf.Account.{IsConsistent, members-sums}
use erebus.Eevdf.Join.{All-option}
use erebus.Eevdf.{EevdfQueue, add128, charge, yield_current, slice_left_ns}

-- The running entity after a charge.
abbrev charged : Entity → ℕ → Entity
charged x delta =
    if ltb (add64 x.vruntime delta) x.vdeadline
    then record x { vruntime = add64 x.vruntime delta }
    else record x {
      vruntime = add64 x.vruntime delta;
      vdeadline = add64 (add64 x.vruntime delta) (to_virtual x x.slice_ns);
    }

charge-some :
    (q : EevdfQueue) (x : Entity) (ns : ℕ)
    → q.current ≡ some x
    → charge q ns ≡ (
      record q {
        current = some (charged x (to_virtual x ns));
        weighted_vruntime = add128 q.weighted_vruntime (x.weight * to_virtual x ns % 2 ^ 128);
      },
      not (ltb (add64 x.vruntime (to_virtual x ns)) x.vdeadline),
    )
unfolding charge
charge-some q x ns e = elim (Bool-cases (ltb (add64 x.vruntime (to_virtual x ns)) x.vdeadline)) [
  | inl l ↦ simp (e, charge, l)
  | inr l ↦ simp (e, charge, l)
]

charged-fields :
    (x : Entity) (d : ℕ)
    → x.vruntime + d < 2 ^ 64
    → ((charged x d).vruntime ≡ x.vruntime + d)
      × ((charged x d).weight ≡ x.weight)
      × ((not (ltb (add64 x.vruntime d) x.vdeadline) ≡ true)
          ↔ (x.vdeadline ≤ (charged x d).vruntime))
      × (x.vdeadline ≤ (charged x d).vruntime
          → (charged x d).vdeadline ≡ add64 (charged x d).vruntime (to_virtual x x.slice_ns))
      × ((charged x d).vruntime < x.vdeadline → (charged x d).vdeadline ≡ x.vdeadline)
charged-fields x d h = ground arith

charged-IsConsistent :
    (q : EevdfQueue) (x : Entity) (d : ℕ)
    → IsConsistent q
    → q.current ≡ some x
    → x.vruntime + d < 2 ^ 64
    → IsConsistent (record q {
      current = some (charged x d);
      weighted_vruntime = add128 q.weighted_vruntime (x.weight * d % 2 ^ 128);
    })
charged-IsConsistent q x d c e h =
    let (v, w, b1, b2, b3) = charged-fields x d h in
    let s = λ (f : Entity → ℕ).
      members-sums q f ∙ ap (λ n. total f (option_list n) + total f (to_list q.tree)) e in
    let (wc, wt) = All-option IsWord q.current (to_list q.tree) c.words in
    let wx : IsWord x = (subst (λ n. All IsWord (option_list n)) e wc).0 in
    let y = charged x d in
    let wy : IsWord y = record { vruntime = rw v h; weight = rw w wx.weight } in
    let p : weighted y ≡ weighted x + x.weight * d = rw (w, v) (omega arith) in
    let b = total-weighted-lt (y ∷ to_list q.tree) (wy, wt) in
    record {
      ordered = c.ordered;
      weighted_sum =
          omega
            (arith, c.weighted_sum, c.weight_sum, c.weight_fits, s weighted, s weight_of, p, w, b);
      weight_sum = omega (arith, c.weight_sum, s weight_of, w);
      count = c.count;
      words = (wy, wt);
      weight_fits = c.weight_fits;
      count_fits = c.count_fits;
      time_fits = c.time_fits;
    }

-- While the running entity's virtual runtime fits its word, `charge` adds the virtual time to it
-- and keeps the queue consistent. It returns true exactly if that used the slice up, and then
-- gives the entity its next deadline, one slice on; otherwise the deadline stays.
pub charge-IsConsistent :
    (q : EevdfQueue) (x : Entity) (ns : ℕ)
    → IsConsistent q
    → q.current ≡ some x
    → x.vruntime + to_virtual x ns < 2 ^ 64
    → IsConsistent (charge q ns).0
      × ((y : Entity) × ((charge q ns).0.current ≡ some y)
          × (y.vruntime ≡ x.vruntime + to_virtual x ns)
          × (y.weight ≡ x.weight)
          × (((charge q ns).1 ≡ true) ↔ (x.vdeadline ≤ y.vruntime))
          × (x.vdeadline ≤ y.vruntime → y.vdeadline ≡ add64 y.vruntime (to_virtual x x.slice_ns))
          × (y.vruntime < x.vdeadline → y.vdeadline ≡ x.vdeadline))
charge-IsConsistent q x ns c e h =
    let (v, w, b, d, n) = charged-fields x (to_virtual x ns) h in
    rw (charge-some q x ns e) (
      charged-IsConsistent q x (to_virtual x ns) c e h,
      (charged x (to_virtual x ns), refl, v, w, b, d, n),
    )

-- `yield_current` moves the running entity's deadline only, by one slice: the queue stays
-- consistent, the totals and the waiting entities stay as they are.
pub yield_current-IsConsistent :
    (q : EevdfQueue) (x : Entity)
    → IsConsistent q
    → q.current ≡ some x
    → IsConsistent (yield_current q)
      × ((yield_current q).current
          ≡ some (record x { vdeadline = add64 x.vdeadline (to_virtual x x.slice_ns) }))
unfolding yield_current
yield_current-IsConsistent q x c e =
    let s = λ (f : Entity → ℕ).
      members-sums q f ∙ ap (λ n. total f (option_list n) + total f (to_list q.tree)) e in
    let (wc, wt) = All-option IsWord q.current (to_list q.tree) c.words in
    let wx : IsWord x = (subst (λ n. All IsWord (option_list n)) e wc).0 in
    simp (e, yield_current)
      (
        record {
          ordered = c.ordered;
          weighted_sum = omega (arith, c.weighted_sum, s weighted);
          weight_sum = omega (arith, c.weight_sum, s weight_of);
          count = c.count;
          words = (record { vruntime = wx.vruntime; weight = wx.weight }, wt);
          weight_fits = c.weight_fits;
          count_fits = c.count_fits;
          time_fits = c.time_fits;
        },
        refl,
      )

-- What is left of a slice is never more than the slice, and nothing once the deadline is reached.
pub slice_left_ns-le :
    (q : EevdfQueue) (x : Entity)
    → q.current ≡ some x
    → (slice_left_ns q ≤ x.slice_ns) × (x.vdeadline ≤ x.vruntime → slice_left_ns q ≡ 0)
unfolding slice_left_ns
slice_left_ns-le q x e = simp (e, slice_left_ns) (ground arith)
