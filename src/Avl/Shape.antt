-- ===== src/Avl/Shape.antt =====
-- kernel/include/utils/avl_tree.hpp: the items of a tree in order, and what each walk and each
-- change of the links does to them, whatever the order of the items.
use erebus.Base.{
  ℕ, ◌+◌, ◌≡◌, refl, List, [], ◌∷◌, ◌++◌, inl, inr, ltb, Bool-cases, ap, ◌∙◌, append-nil,
  append_assoc, subst,
}
use erebus.Avl.{
  Tree, leaf, node, Frame, from_left, from_right, Traits, Position, height, lowest, refresh,
  rotate_left, rotate_right, lean_left, lean_right, rebalance, rebalance_upwards, erase_node, erase,
}
use erebus.Avl.Balance.{IsValid, Fits, IsPosition}

module _ {A M : Type 0} where
  -- The items, lowest first.
  abbrev pub to_list : Tree A M → List A
  to_list leaf = []
  to_list (node l x m h r) = to_list l ++ x ∷ to_list r

  -- The items before and after a subtree, as its frames have them.
  abbrev pub before : List (Frame A M) → List A
  before [] = []
  before (from_left y r ∷ fs) = before fs
  before (from_right l y ∷ fs) = before fs ++ to_list l ++ y ∷ []

  abbrev pub after : List (Frame A M) → List A
  after [] = []
  after (from_left y r ∷ fs) = y ∷ to_list r ++ after fs
  after (from_right l y ∷ fs) = after fs

  abbrev pub preceding : Position A M → List A
  preceding p = before p.above ++ to_list p.left

  abbrev pub following : Position A M → List A
  following p = to_list p.right ++ after p.above

  -- The subtree `s` stands in the tree `t`, below the frames.
  pub data Within (t : Tree A M) : Tree A M → List (Frame A M) → Type 0 where
    here : Within t t []
    down_left :
        {l r : Tree A M} {x : A} {m : M} {h : ℕ} {fs : List (Frame A M)}
        → Within t (node l x m h r) fs
        → Within t l (from_left x r ∷ fs)
    down_right :
        {l r : Tree A M} {x : A} {m : M} {h : ℕ} {fs : List (Frame A M)}
        → Within t (node l x m h r) fs
        → Within t r (from_right l x ∷ fs)

  -- A node of `t`.
  abbrev pub At : Tree A M → Position A M → Type 0
  At t p = record { m : M; h : ℕ; within : Within t (node p.left p.item m h p.right) p.above }

  to_list-Within :
      {t s : Tree A M} {fs : List (Frame A M)}
      → Within t s fs
      → to_list t ≡ before fs ++ to_list s ++ after fs
  to_list-Within here = simp append-nil
  to_list-Within (down_left w) = to_list-Within w ∙ simp append_assoc
  to_list-Within (down_right w) = to_list-Within w ∙ simp append_assoc

  pub to_list-At :
      (t : Tree A M) (p : Position A M) → At t p → to_list t ≡ preceding p ++ p.item ∷ following p
  to_list-At t p a = to_list-Within a.within ∙ simp append_assoc

  before-append : (fs gs : List (Frame A M)) → before (fs ++ gs) ≡ before gs ++ before fs
  before-append [] gs = simp append-nil
  before-append (from_left y r ∷ fs) gs = before-append fs gs
  before-append (from_right l y ∷ fs) gs = simp (before-append fs gs, append_assoc)

  after-append : (fs gs : List (Frame A M)) → after (fs ++ gs) ≡ after fs ++ after gs
  after-append [] gs = refl
  after-append (from_left y r ∷ fs) gs = simp (after-append fs gs, append_assoc)
  after-append (from_right l y ∷ fs) gs = after-append fs gs

  -- The walk to the lowest node goes left only.
  lowest-to_list :
      (l : Tree A M) (x : A) (r : Tree A M) (fs : List (Frame A M))
      → let p = lowest l x r fs in
        (before p.above ≡ before fs)
        × (p.item ∷ to_list p.right ++ after p.above ≡ to_list l ++ x ∷ to_list r ++ after fs)
  unfolding lowest
  lowest-to_list leaf x r fs = (refl, refl)
  lowest-to_list (node l y m h s) x r fs =
      let (b, a) = lowest-to_list l y s (from_left x r ∷ fs) in (b, a ∙ simp append_assoc)

module _ {A M : Type 0} (t : Traits A M) where
  rotate_left-to_list :
      (l : Tree A M) (x : A) (r : Tree A M)
      → to_list (rotate_left t l x r) ≡ to_list l ++ x ∷ to_list r
  unfolding rotate_left refresh
  rotate_left-to_list l x leaf = refl
  rotate_left-to_list l x (node a y m h b) = simp append_assoc

  rotate_right-to_list :
      (l : Tree A M) (x : A) (r : Tree A M)
      → to_list (rotate_right t l x r) ≡ to_list l ++ x ∷ to_list r
  unfolding rotate_right refresh
  rotate_right-to_list leaf x r = refl
  rotate_right-to_list (node a y m h b) x r = simp append_assoc

  lean_left-to_list : (l : Tree A M) → to_list (lean_left t l) ≡ to_list l
  unfolding lean_left
  lean_left-to_list leaf = refl
  lean_left-to_list (node a y m h b) = elim (Bool-cases (ltb (height a) (height b))) [
    | inl e ↦ rw e (rotate_left-to_list a y b)
    | inr e ↦ rw e
  ]

  lean_right-to_list : (r : Tree A M) → to_list (lean_right t r) ≡ to_list r
  unfolding lean_right
  lean_right-to_list leaf = refl
  lean_right-to_list (node a y m h b) = elim (Bool-cases (ltb (height b) (height a))) [
    | inl e ↦ rw e (rotate_right-to_list a y b)
    | inr e ↦ rw e
  ]

  rebalance-to_list :
      (l : Tree A M) (x : A) (r : Tree A M)
      → to_list (rebalance t l x r) ≡ to_list l ++ x ∷ to_list r
  unfolding rebalance
  rebalance-to_list l x r = elim (Bool-cases (ltb (height r + 1) (height l))) [
    | inl e ↦ rw e (rotate_right-to_list (lean_left t l) x r ∙ rw (lean_left-to_list l))
    | inr e ↦ elim (Bool-cases (ltb (height l + 1) (height r))) [
      | inl f ↦ rw e (rw f (rotate_left-to_list l x (lean_right t r) ∙ rw (lean_right-to_list r)))
      | inr f ↦ rw e (rw f (unfold refresh in refl))
    ]
  ]

  pub rebalance_upwards-to_list :
      (s : Tree A M) (fs : List (Frame A M))
      → to_list (rebalance_upwards t s fs) ≡ before fs ++ to_list s ++ after fs
  unfolding rebalance_upwards
  rebalance_upwards-to_list s [] = simp append-nil
  rebalance_upwards-to_list s (from_left y r ∷ fs) =
      simp (rebalance_upwards-to_list (rebalance t s y r) fs, rebalance-to_list, append_assoc)
  rebalance_upwards-to_list s (from_right l y ∷ fs) =
      simp (rebalance_upwards-to_list (rebalance t l y s) fs, rebalance-to_list, append_assoc)

  erase_node-to_list :
      (l r : Tree A M) (fs : List (Frame A M))
      → to_list (erase_node t l r fs) ≡ (before fs ++ to_list l) ++ to_list r ++ after fs
  unfolding erase_node
  erase_node-to_list leaf r fs = simp (rebalance_upwards-to_list, append-nil)
  erase_node-to_list (node l x m h s) leaf fs = simp (rebalance_upwards-to_list, append_assoc)
  erase_node-to_list (node l x m h s) (node rl rx n j rr) fs =
      let (b, a) = lowest-to_list rl rx rr [] in
      let low = lowest rl rx rr [] in
      let c : low.item ∷ (to_list low.right ++ (after low.above ++ after fs))
          ≡ to_list rl ++ rx ∷ (to_list rr ++ after fs) =
        simp (append_assoc, append-nil) at (ap (λ q. q ++ after fs) a) in
      rebalance_upwards-to_list low.right (low.above ++ from_right (node l x m h s) low.item ∷ fs)
      ∙ simp (before-append, after-append, b, append_assoc, append-nil)
          (ap (λ q. before fs ++ (to_list l ++ x ∷ (to_list s ++ q))) c)

  -- `erase` takes the node's item out, and leaves the others in their order.
  pub erase-to_list : (p : Position A M) → to_list (erase t p) ≡ preceding p ++ following p
  unfolding erase
  erase-to_list p = erase_node-to_list p.left p.right p.above ∙ simp append_assoc

module _ {A M : Type 0} where
  Within-Fits :
      (t : Traits A M) (s : Tree A M) {u : Tree A M} {fs : List (Frame A M)}
      → IsValid t s
      → Within s u fs
      → IsValid t u × Fits t (height u) fs (height s)
  Within-Fits t s v here = (v, refl)
  Within-Fits t s v (down_left {r = r} {fs = fs} w) =
      let ((e, p, q, m, vl, vr), f) = Within-Fits t s v w in
      (vl, (vr, p, q, subst (λ n. Fits t n fs (height s)) e f))
  Within-Fits t s v (down_right {r = r} {fs = fs} w) =
      let ((e, p, q, m, vl, vr), f) = Within-Fits t s v w in
      (vr, (vl, q, p, subst (λ n. Fits t n fs (height s)) e f))

  -- Every node of a valid tree is a position that `erase` can take.
  pub At-IsPosition :
      (t : Traits A M) (s : Tree A M) (p : Position A M)
      → IsValid t s
      → At s p
      → IsPosition t p (height s)
  At-IsPosition t s p v a =
      let ((e, x, y, m, vl, vr), f) = Within-Fits t s v a.within in
      (vl, vr, x, y, subst (λ n. Fits t n p.above (height s)) e f)
