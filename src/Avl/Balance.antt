-- ===== src/Avl/Balance.antt =====
-- kernel/include/utils/avl_tree.hpp: what `is_subtree_consistent` checks of heights, and the data
-- that `Traits::update` keeps.
use erebus.Base.{
  ℕ, ◌+◌, ◌≤◌, ◌≡◌, refl, max, List, [], ◌∷◌, ◌++◌, inl, inr, arith, tests, subst, sym, ltb,
  Bool-cases,
}
use erebus.Avl.{
  Tree, leaf, node, Frame, from_left, from_right, Traits, Position, height, item_of, lowest,
  refresh, rotate_left, rotate_right, lean_left, lean_right, rebalance, rebalance_upwards, descend,
  insert, erase_node, erase,
}

module _ {A M : Type 0} (t : Traits A M) where
  -- Every node's height is right, its children's heights differ by one at most, and it keeps what
  -- `update` says.
  abbrev pub IsValid : Tree A M → Type 0
  IsValid leaf = Unit
  IsValid (node l x m h r) =
      (h ≡ 1 + max (height l) (height r))
      × (height l ≤ height r + 1)
      × (height r ≤ height l + 1)
      × (m ≡ t.update x (item_of l) (item_of r))
      × IsValid l
      × IsValid r

  pub refresh-IsValid :
      (l : Tree A M) (x : A) (r : Tree A M)
      → IsValid l
      → IsValid r
      → height l ≤ height r + 1
      → height r ≤ height l + 1
      → IsValid (refresh t l x r)
  unfolding refresh
  refresh-IsValid l x r vl vr h k = (refl, h, k, refl, vl, vr)

  -- What a round of `rebalance_upwards` leaves: a valid subtree, hardly taller than its children.
  abbrev Restores : Tree A M → ℕ → Type 0
  Restores s h = IsValid s × (h ≤ height s) × (height s ≤ h + 1)

  left_heavy :
      (l : Tree A M) (x : A) (r : Tree A M)
      → IsValid l
      → IsValid r
      → height l ≡ height r + 2
      → Restores (rotate_right t (lean_left t l) x r) (height l)
  unfolding refresh rotate_left rotate_right lean_left
  left_heavy leaf x r vl vr e = absurd (omega arith)
  left_heavy (node a y m h leaf) x r vl vr e = ground arith
  left_heavy (node a y m h (node b z n k c)) x r (e0, p, q, u, va, vb) vr e =
      elim (Bool-cases (ltb (height a) k)) [
        | inl w ↦ rw w (
          refresh-IsValid (refresh t a y b) z (refresh t c x r)
              (refresh-IsValid a y b va vb.4 (omega tests) (omega tests))
              (refresh-IsValid c x r vb.5 vr (omega tests) (omega tests)) (omega tests)
              (omega tests),
          omega tests,
          omega tests,
        )
        | inr w ↦ rw w (
          refresh-IsValid a y (refresh t (node b z n k c) x r) va
              (refresh-IsValid (node b z n k c) x r vb vr (omega tests) (omega tests)) (omega tests)
              (omega tests),
          omega tests,
          omega tests,
        )
      ]

  right_heavy :
      (l : Tree A M) (x : A) (r : Tree A M)
      → IsValid l
      → IsValid r
      → height r ≡ height l + 2
      → Restores (rotate_left t l x (lean_right t r)) (height r)
  unfolding refresh rotate_left rotate_right lean_right
  right_heavy l x leaf vl vr e = absurd (omega arith)
  right_heavy l x (node leaf y m h c) vl vr e = ground arith
  right_heavy l x (node (node a z n k b) y m h c) vl (e0, p, q, u, va, vc) e =
      elim (Bool-cases (ltb (height c) k)) [
        | inl w ↦ rw w (
          refresh-IsValid (refresh t l x a) z (refresh t b y c)
              (refresh-IsValid l x a vl va.4 (omega tests) (omega tests))
              (refresh-IsValid b y c va.5 vc (omega tests) (omega tests)) (omega tests)
              (omega tests),
          omega tests,
          omega tests,
        )
        | inr w ↦ rw w (
          refresh-IsValid (refresh t l x (node a z n k b)) y c
              (refresh-IsValid l x (node a z n k b) vl va (omega tests) (omega tests)) vc
              (omega tests) (omega tests),
          omega tests,
          omega tests,
        )
      ]

  -- A round at a node whose children differ by two at most.
  rebalance-Restores :
      (l : Tree A M) (x : A) (r : Tree A M)
      → IsValid l
      → IsValid r
      → height l ≤ height r + 2
      → height r ≤ height l + 2
      → Restores (rebalance t l x r) (max (height l) (height r))
        × (height l ≤ height r + 1
            → height r ≤ height l + 1
            → height (rebalance t l x r) ≡ 1 + max (height l) (height r))
  unfolding rebalance
  rebalance-Restores l x r vl vr h k = elim (Bool-cases (ltb (height r + 1) (height l))) [
    | inl w ↦
        let s = left_heavy l x r vl vr (omega tests) in
        let m : max (height l) (height r) ≡ height l = omega tests in
        rw w (rw m (s, λ a b. absurd (omega tests)))
    | inr w ↦ elim (Bool-cases (ltb (height l + 1) (height r))) [
      | inl v ↦
          let s = right_heavy l x r vl vr (omega tests) in
          let m : max (height l) (height r) ≡ height r = omega tests in
          rw w (rw v (rw m (s, λ a b. absurd (omega tests))))
      | inr v ↦ rw w (
          rw v (
            (
              refresh-IsValid l x r vl vr (omega tests) (omega tests),
              unfold refresh in omega arith,
              unfold refresh in omega arith,
            ),
            λ a b. unfold refresh in omega arith,
          ))
    ]
  ]

  -- The frames fit a subtree of height `h`, and the tree that they make has height `k`.
  abbrev pub Fits : ℕ → List (Frame A M) → ℕ → Type 0
  Fits h [] k = h ≡ k
  Fits h (from_left y r ∷ fs) k =
      IsValid r × (h ≤ height r + 1) × (height r ≤ h + 1) × Fits (1 + max h (height r)) fs k
  Fits h (from_right l y ∷ fs) k =
      IsValid l × (h ≤ height l + 1) × (height l ≤ h + 1) × Fits (1 + max (height l) h) fs k

  pub Fits-append :
      (h k j : ℕ) (fs gs : List (Frame A M)) → Fits h fs k → Fits k gs j → Fits h (fs ++ gs) j
  Fits-append h k j [] gs e g = subst (λ n. Fits n gs j) (sym e) g
  Fits-append h k j (from_left y r ∷ fs) gs (v, p, q, f) g =
      (v, p, q, Fits-append (1 + max h (height r)) k j fs gs f g)
  Fits-append h k j (from_right l y ∷ fs) gs (v, p, q, f) g =
      (v, p, q, Fits-append (1 + max (height l) h) k j fs gs f g)

  -- The climb repairs a tree in which one subtree has changed its height by one at most.
  pub rebalance_upwards-IsValid :
      (h k : ℕ) (s : Tree A M) (fs : List (Frame A M))
      → IsValid s
      → height s ≤ h + 1
      → h ≤ height s + 1
      → Fits h fs k
      → IsValid (rebalance_upwards t s fs)
  unfolding rebalance_upwards
  rebalance_upwards-IsValid h k s [] v p q f = v
  rebalance_upwards-IsValid h k s (from_left y r ∷ fs) v p q (vr, a, b, f) =
      let (w, e) = rebalance-Restores s y r v vr (omega arith) (omega arith) in
      rebalance_upwards-IsValid (1 + max h (height r)) k (rebalance t s y r) fs w.0 (omega arith)
        (ground arith) f
  rebalance_upwards-IsValid h k s (from_right l y ∷ fs) v p q (vl, a, b, f) =
      let (w, e) = rebalance-Restores l y s vl v (omega arith) (omega arith) in
      rebalance_upwards-IsValid (1 + max (height l) h) k (rebalance t l y s) fs w.0 (omega arith)
        (ground arith) f

  descend-Fits :
      (x : A) (s : Tree A M) (k : ℕ) (fs : List (Frame A M))
      → IsValid s
      → Fits (height s) fs k
      → Fits 0 (descend t x s fs) k
  unfolding descend
  descend-Fits x leaf k fs v f = f
  descend-Fits x (node l y m h r) k fs (e, p, q, u, vl, vr) f =
      let f' : Fits (1 + max (height l) (height r)) fs k = subst (λ n. Fits n fs k) e f in
      elim (Bool-cases (t.less x y)) [
        | inl w ↦ rw (w, descend) (descend-Fits x l k (from_left y r ∷ fs) vl (vr, p, q, f'))
        | inr w ↦ rw (w, descend) (descend-Fits x r k (from_right l y ∷ fs) vr (vl, q, p, f'))
      ]

  -- `insert` keeps the tree valid: every height right, no two children of a node apart by more than
  -- one level, and every node's kept data what `update` computes from its children.
  pub insert-IsValid : (x : A) (s : Tree A M) → IsValid s → IsValid (insert t x s)
  unfolding insert
  insert-IsValid x s v =
      let (w, e) = rebalance-Restores leaf x leaf tt tt (omega arith) (omega arith) in
      rebalance_upwards-IsValid 0 (height s) (rebalance t leaf x leaf) (descend t x s []) w.0
        (omega arith) (omega arith) (descend-Fits x s (height s) [] v refl)

  lowest-Fits :
      (l : Tree A M) (x : A) (r : Tree A M) (k : ℕ) (fs : List (Frame A M))
      → IsValid l
      → IsValid r
      → height l ≤ height r + 1
      → height r ≤ height l + 1
      → Fits (1 + max (height l) (height r)) fs k
      → let p = lowest l x r fs in IsValid p.right × Fits (1 + height p.right) p.above k
  unfolding lowest
  lowest-Fits leaf x r k fs vl vr p q f = (
    vr,
    subst (λ n. Fits n fs k) (let e : 1 + max 0 (height r) ≡ 1 + height r = omega arith in e) f,
  )
  lowest-Fits (node l y m h s) x r k fs (e, a, b, u, vl, vs) vr p q f =
      lowest-Fits l y s k (from_left x r ∷ fs) vl vs a b
        (vr, omega arith, omega arith, subst (λ n. Fits (1 + max n (height r)) fs k) e f)

  -- The tree around a position is valid.
  abbrev pub IsPosition : Position A M → ℕ → Type 0
  IsPosition p k =
      IsValid p.left
      × IsValid p.right
      × (height p.left ≤ height p.right + 1)
      × (height p.right ≤ height p.left + 1)
      × Fits (1 + max (height p.left) (height p.right)) p.above k

  erase_node-IsValid :
      (l r : Tree A M) (fs : List (Frame A M)) (k : ℕ)
      → IsValid l
      → IsValid r
      → height l ≤ height r + 1
      → height r ≤ height l + 1
      → Fits (1 + max (height l) (height r)) fs k
      → IsValid (erase_node t l r fs)
  unfolding erase_node
  erase_node-IsValid leaf r fs k vl vr p q f =
      rebalance_upwards-IsValid (1 + max 0 (height r)) k r fs vr (omega arith) (omega arith) f
  erase_node-IsValid (node l x m h s) leaf fs k vl vr p q f =
      rebalance_upwards-IsValid (1 + max h 0) k (node l x m h s) fs vl (omega arith) (omega arith) f
  erase_node-IsValid (node l x m h s) (node rl rx n j rr) fs k vl (e, a, b, u, wl, wr) p q f =
      let low = lowest rl rx rr [] in
      let (v, g) = lowest-Fits rl rx rr j [] wl wr a b (sym e) in
      rebalance_upwards-IsValid (1 + height low.right) k low.right
        (low.above ++ from_right (node l x m h s) low.item ∷ fs) v (omega arith) (omega arith)
        (Fits-append (1 + height low.right) j k low.above
          (from_right (node l x m h s) low.item ∷ fs) g (vl, q, p, f))

  -- `erase` of a node of a valid tree leaves a valid tree.
  pub erase-IsValid : (p : Position A M) (k : ℕ) → IsPosition p k → IsValid (erase t p)
  unfolding erase
  erase-IsValid p k (vl, vr, a, b, f) = erase_node-IsValid p.left p.right p.above k vl vr a b f
