-- ===== src/Eevdf/Pick.antt =====
-- kernel/src/sched/eevdf.cpp: `pick` chooses, of all entities, the eligible one that is due first.
use erebus.Base.{
  ℕ, suc, ◌*◌, ◌^◌, ◌≤◌, ◌<◌, ◌≡◌, ◌≢◌, ◌⊎◌, refl, ◌∙◌, sym, true, false, ◌&&◌, Option, none, some,
  List, [], ◌∷◌, ◌++◌, arith, tests, leb, All, All-right, Bool-cases, Option-cases, inl, inr, subst,
  ap, not_leb→lt, length, length-append,
}
use erebus.Avl.{leaf, node, is_empty}
use erebus.Avl.Order.{IsSorted}
use erebus.Avl.Shape.{to_list}
use erebus.Eevdf.Entities.{Entity}
use erebus.Eevdf.Eligible.{IsWord, find_first, leftmost_eligible_lem, eligible_of_lt, mul_mono}
use erebus.Eevdf.Sums.{total, weighted, weight_of, option_list, members}
use erebus.Eevdf.Account.{IsConsistent}
use erebus.Eevdf.{
  EevdfQueue, EntityTree, tree_traits, is_eligible, leftmost_eligible, pick, pick_assertion,
}

abbrev pub Member : Entity → List Entity → Type 0
Member e [] = ⊥
Member e (x ∷ xs) = (e ≡ x) ⊎ Member e xs

Member-right : (e : Entity) (xs ys : List Entity) → Member e ys → Member e (xs ++ ys)
Member-right e [] ys m = m
Member-right e (x ∷ xs) ys m = inr (Member-right e xs ys m)

-- `e` is due no later than any eligible entity of the list.
abbrev pub DueFirst : EevdfQueue → Entity → List Entity → Type 0
DueFirst q e = All (λ x. is_eligible q x ≡ true → e.vdeadline ≤ x.vdeadline)

not_later :
    (q : EevdfQueue) (x : Entity) (xs : List Entity)
    → All (λ y. tree_traits.less y x ≡ false) xs
    → DueFirst q x xs
not_later q x [] h = tt
not_later q x (y ∷ ys) h = (λ e. omega (tests, h.0), not_later q x ys h.1)

find_first_lem :
    (q : EevdfQueue) (xs : List Entity) (e : Entity)
    → IsSorted tree_traits.less xs
    → find_first (is_eligible q) xs ≡ some e
    → (is_eligible q e ≡ true) × DueFirst q e xs × Member e xs
find_first_lem q [] e s h = absurd (cc)
find_first_lem q (x ∷ xs) e (a, s) h = elim (Bool-cases (is_eligible q x)) [
  | inl y ↦
      let k : some x ≡ some e = rw y at h in
      let k' : x ≡ e = cc in
      subst (λ r. (is_eligible q r ≡ true) × DueFirst q r (x ∷ xs) × Member r (x ∷ xs)) k'
        (y, ((λ p. omega arith), not_later q x xs a), inl refl)
  | inr n ↦
      let (p, d, m) = find_first_lem q xs e s (rw n at h) in
      (p, ((λ y. absurd (let b : true ≡ false = sym y ∙ n in cc)), d), inr m)
]

-- Nothing eligible is found only where nothing is.
find_first-none :
    (q : EevdfQueue) (xs : List Entity)
    → find_first (is_eligible q) xs ≡ none
    → All (λ x. is_eligible q x ≡ false) xs
find_first-none q [] h = tt
find_first-none q (x ∷ xs) h = elim (Bool-cases (is_eligible q x)) [
  | inl y ↦ absurd (let k : some x ≡ none = rw y at h in cc)
  | inr n ↦ (n, find_first-none q xs (rw n at h))
]

late_product : (w v t s : ℕ) → 0 < w → s < t * v → w * s < t * (w * v)
late_product w v t s p h = omega (arith, mul_mono w (suc s) (t * v) h)

-- If all are past a bound then so is their weighted average.
late_total :
    (q : EevdfQueue) (xs : List Entity)
    → q.total_weight < 2 ^ 64
    → All IsWord xs
    → All (λ x. is_eligible q x ≡ false) xs
    → (total weight_of xs * q.weighted_vruntime ≤ q.total_weight * total weighted xs)
      × (xs ≢ [] → total weight_of xs * q.weighted_vruntime < q.total_weight * total weighted xs)
late_total q [] f w h = (omega arith, λ n. absurd (n refl))
late_total q (x ∷ xs) f w h =
    let e = eligible_of_lt q f x.vruntime w.0.vruntime in
    let l = not_leb→lt _ _ (rw e at h.0) in
    let a = late_product x.weight x.vruntime q.total_weight q.weighted_vruntime w.0.weight l in
    let (b, d) = late_total q xs f w.1 h.1 in (omega arith, λ n. omega arith)

bound_lt : (a b c d : ℕ) → a ≡ c → b ≡ d → c * b < a * d → ⊥
bound_lt a b c d e f h = let k : c * b ≡ a * d = cc in omega arith

-- Some entity is always eligible: the average is not below all of them.
pub some_eligible :
    (q : EevdfQueue)
    → IsConsistent q
    → All (λ x. is_eligible q x ≡ false) (members q)
    → members q ≡ []
some_eligible q c h = go (members q) refl
  where
    go : (xs : List Entity) → members q ≡ xs → members q ≡ []
    go [] e = e
    go (x ∷ xs) e =
        let n : members q ≢ [] = λ k. (let d : x ∷ xs ≡ [] = sym e ∙ k in cc) in
        absurd (
          bound_lt q.total_weight q.weighted_vruntime _ _ c.weight_sum c.weighted_sum
            ((late_total q (members q) c.weight_fits c.words h).1 n))

vacuous :
    (q : EevdfQueue) (e : Entity) (xs : List Entity)
    → All (λ x. is_eligible q x ≡ false) xs
    → DueFirst q e xs
vacuous q e [] h = tt
vacuous q e (x ∷ xs) (n, h) =
    ((λ y. absurd (let b : true ≡ false = sym y ∙ n in cc)), vacuous q e xs h)

earlier :
    (q : EevdfQueue) (e b : Entity) (xs : List Entity)
    → e.vdeadline ≤ b.vdeadline
    → DueFirst q b xs
    → DueFirst q e xs
earlier q e b [] l d = tt
earlier q e b (x ∷ xs) l (p, d) = ((λ y. let k = p y in omega arith), earlier q e b xs l d)

abbrev pub Best : EevdfQueue → List Entity → Option Entity → Type 0
Best q xs r = (e : Entity) × (r ≡ some e) × (is_eligible q e ≡ true) × DueFirst q e xs × Member e xs

-- `pick` on a consistent queue that holds anyone at all, running or waiting, returns one of them:
-- it is eligible, and no eligible one is due before it.
pub pick-Best : (q : EevdfQueue) → IsConsistent q → members q ≢ [] → Best q (members q) (pick q)
unfolding pick
pick-Best q c n =
    let wt = All-right IsWord (option_list q.current) (to_list q.tree) c.words in
    let found = leftmost_eligible_lem q c.weight_fits q.tree c.ordered.valid wt in
    elim (Option-cases q.current) [
      | inl e ↦ elim (Option-cases (leftmost_eligible q q.tree)) [
        | inl l ↦
            let h = find_first-none q (to_list q.tree) (sym found ∙ l) in
            absurd (n (some_eligible q c (simp e h)))
        | inr (b, l) ↦
            let (p, d, m) = find_first_lem q (to_list q.tree) b c.ordered.sorted (sym found ∙ l) in
            simp (e, l, pick) (b, refl, p, d, m)
      ]
      | inr (x, e) ↦ elim (Option-cases (leftmost_eligible q q.tree)) [
        | inl l ↦
            let h = find_first-none q (to_list q.tree) (sym found ∙ l) in
            elim (Bool-cases (is_eligible q x)) [
              | inl y ↦
                  simp (e, l, pick)
                    (x, refl, y, ((λ k. omega arith), vacuous q x (to_list q.tree) h), inl refl)
              | inr k ↦ absurd (n (some_eligible q c (simp e (k, h))))
            ]
        | inr (b, l) ↦
            let (p, d, m) = find_first_lem q (to_list q.tree) b c.ordered.sorted (sym found ∙ l) in
            elim (Bool-cases (is_eligible q x && leb x.vdeadline b.vdeadline)) [
              | inl y ↦
                  simp (e, l, pick, y)
                    (
                      x,
                      refl,
                      ground arith,
                      ((λ k. omega arith), earlier q x b (to_list q.tree) (ground arith) d),
                      inl refl,
                    )
              | inr k ↦ simp (e, l, pick, k) (b, refl, p, ((λ y. ground arith), d), inr m)
            ]
      ]
    ]

nil-empty : (s : EntityTree) → to_list s ≡ [] → is_empty s ≡ true
unfolding is_empty
nil-empty leaf h = refl
nil-empty (node l x m k r) h =
    absurd (omega (arith, ap length h, length-append (to_list l) (x ∷ to_list r)))

-- What `pick` asserts holds on every consistent queue.
pub pick_assertion_holds : (q : EevdfQueue) → IsConsistent q → pick_assertion q ≡ true
unfolding pick_assertion
pick_assertion_holds q c = elim (Option-cases q.current) [
  | inr (x, e) ↦ simp (e, pick_assertion)
  | inl e ↦ elim (Option-cases (leftmost_eligible q q.tree)) [
    | inr (b, l) ↦ simp (e, l, pick_assertion)
    | inl l ↦
        let wt = All-right IsWord (option_list q.current) (to_list q.tree) c.words in
        let found = leftmost_eligible_lem q c.weight_fits q.tree c.ordered.valid wt in
        let h = find_first-none q (to_list q.tree) (sym found ∙ l) in
        simp (e, l, pick_assertion) (nil-empty q.tree (simp e at (some_eligible q c (simp e h))))
  ]
]
