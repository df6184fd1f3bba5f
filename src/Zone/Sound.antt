-- ===== src/Zone/Sound.antt =====
-- The invariant of a zone, and the steps that keep it: whatever the merge loop would take for a
-- free buddy is linked into the area it is taken from, and a bit is set where an area has blocks.
use erebus.Base.{
  ℕ, ◌≤◌, Bool, true, false, not, ◌&&◌, List, [], ◌∷◌, ltb, ◌==◌, if◌then◌else◌, ◌≡◌, refl, inl,
  inr, Bool-cases, ==→eq, eq→==, not_==→ne, subst, sym,
}
use erebus.Zone.{
  MobilityZone, put, remove, max_order, is_nil, is_free, can_merge, give_back, take_buddy, pop_hot,
  mark_active, set_active,
}
use erebus.Zone.Measure.{Member, Member-remove}

-- `skip` names the frames that are in transit, of which nothing is asked.
pub record IsSoundBut (skip : ℕ → Bool) (z : MobilityZone) : Type 0 where
  pub linked :
      (p order : ℕ) → skip p ≡ false → can_merge z p order ≡ true → Member p (z.areas order)
  pub bits : (order : ℕ) → z.active_orders order ≡ not (is_nil (z.areas order))
  pub orders : (p : ℕ) → (z.pages p).order ≤ max_order

abbrev pub nobody : ℕ → Bool
nobody p = false

abbrev pub only : ℕ → ℕ → Bool
only pfn p = p == pfn

abbrev pub IsSound : MobilityZone → Type 0
IsSound z = IsSoundBut nobody z

and-left : (a b : Bool) → (a && b) ≡ true → a ≡ true
and-left true b h = refl
and-left false b h = h

and-right : (a b : Bool) → (a && b) ≡ true → b ≡ true
and-right true b h = h
and-right false b h = absurd (let k : false ≡ true = h in cc)

pub can_merge-free :
    (z : MobilityZone) (p order : ℕ)
    → can_merge z p order ≡ true
    → (is_free (z.pages p).state ≡ true) × ((z.pages p).order ≡ order)
unfolding can_merge
can_merge-free z p order h =
    let f = λ (a b c d e : Bool) (k : (a && b && c && d && e) ≡ true).
      and-left (a && b && c) d (and-left (a && b && c && d) e k) in
    let k =
      f (ltb p z.max_pfn) (is_free (z.pages p).state) ((z.pages p).order == order)
        ((z.pages p).mobility == z.mobility) ((z.pages p).numa_node == z.node_id) h in
    let l =
      and-left (ltb p z.max_pfn && is_free (z.pages p).state) ((z.pages p).order == order) k in
    let r =
      and-right (ltb p z.max_pfn && is_free (z.pages p).state) ((z.pages p).order == order) k in
    (and-right (ltb p z.max_pfn) (is_free (z.pages p).state) l, ==→eq (z.pages p).order order r)

Member-push :
    (p pfn order o : ℕ) (areas : ℕ → List ℕ)
    → Member p (areas o)
    → Member p (put areas order (pfn ∷ areas order) o)
Member-push p pfn order o areas m = elim (Bool-cases (order == o)) [
  | inl e ↦ rw e (inr (subst (λ x. Member p (areas x)) (sym (==→eq order o e)) m))
  | inr e ↦ rw e m
]

-- A free descriptor that is overwritten elsewhere is as it was.
pub IsSoundBut-give_back :
    (skip : ℕ → Bool) (z : MobilityZone) (pfn order : ℕ)
    → order ≤ max_order
    → IsSoundBut skip z
    → IsSoundBut skip (give_back z pfn order)
unfolding give_back can_merge
IsSoundBut-give_back skip z pfn order h s = record {
  linked = λ p o u m. elim (Bool-cases (pfn == p)) [
    | inl e ↦
        let k : order ≡ o = simp e at ((can_merge-free (give_back z pfn order) p o m).1) in
        rw (eq→== order o k) (inl (sym (==→eq pfn p e)))
    | inr e ↦ Member-push p pfn order o z.areas (s.linked p o u (simp e at m))
  ];
  bits = λ o. elim (Bool-cases (order == o)) [ inl e ↦ rw e refl | inr e ↦ rw e (s.bits o) ];
  orders = λ p. elim (Bool-cases (pfn == p)) [ inl e ↦ rw e h | inr e ↦ rw e (s.orders p) ];
}

not_free :
    (z : MobilityZone) (p o : ℕ) → is_free (z.pages p).state ≡ false → can_merge z p o ≡ true → ⊥
not_free z p o f m =
    let k : is_free (z.pages p).state ≡ true = (can_merge-free z p o m).0 in
    absurd (let l : true ≡ false = cc in cc)

Member-nonempty : (b : ℕ) (xs : List ℕ) → Member b xs → not (is_nil xs) ≡ true
Member-nonempty b [] m = absurd m
Member-nonempty b (x ∷ xs) m = refl

-- The bits after an area that had a block has been left with `rest`.
left_bits :
    (z : MobilityZone) (order o : ℕ) (rest : List ℕ)
    → ((x : ℕ) → z.active_orders x ≡ not (is_nil (z.areas x)))
    → not (is_nil (z.areas order)) ≡ true
    → (if is_nil rest then put z.active_orders order false else z.active_orders) o
      ≡ not (is_nil (put z.areas order rest o))
left_bits z order o [] bits h = elim (Bool-cases (order == o)) [
  | inl e ↦ rw e refl
  | inr e ↦ rw e (bits o)
]
left_bits z order o (x ∷ rest) bits h = elim (Bool-cases (order == o)) [
  | inl e ↦
      let k : order ≡ o = ==→eq order o e in
      let b = bits order in
      let c : z.active_orders order ≡ true = cc in rw e (subst (λ y. z.active_orders y ≡ true) k c)
  | inr e ↦ rw e (bits o)
]

pub IsSound-take_buddy :
    (z : MobilityZone) (b order : ℕ)
    → IsSound z
    → Member b (z.areas order)
    → IsSound (take_buddy z b order)
unfolding take_buddy can_merge remove
IsSound-take_buddy z b order s m = record {
  linked = λ p o u k. elim (Bool-cases (b == p)) [
    | inl e ↦ absurd (not_free (take_buddy z b order) p o (rw e refl) k)
    | inr e ↦
        let n : Member p (z.areas o) = s.linked p o u (simp e at k) in
        elim (Bool-cases (order == o)) [
          | inl f ↦ rw f (
              Member-remove b p (z.areas order) (λ q. not_==→ne b p e (sym q))
                (subst (λ x. Member p (z.areas x)) (sym (==→eq order o f)) n))
          | inr f ↦ rw f n
        ]
  ];
  bits = λ o.
      left_bits z order o (remove b (z.areas order)) s.bits (Member-nonempty b (z.areas order) m);
  orders =
      λ p. elim (Bool-cases (b == p)) [ inl e ↦ rw e (s.orders b) | inr e ↦ rw e (s.orders p) ];
}

pub IsSoundBut-pop_hot :
    (z : MobilityZone) (pfn order : ℕ) (rest : List ℕ)
    → IsSound z
    → z.areas order ≡ pfn ∷ rest
    → IsSoundBut (only pfn) (pop_hot z order rest)
unfolding pop_hot can_merge
IsSoundBut-pop_hot z pfn order rest s eq = record {
  linked = λ p o u k.
      let n : Member p (z.areas o) = s.linked p o refl k in
      elim (Bool-cases (order == o)) [
        | inl f ↦ rw f (
            let l : order ≡ o = ==→eq order o f in
            let a : z.areas o ≡ pfn ∷ rest = subst (λ x. z.areas x ≡ pfn ∷ rest) l eq in
            elim (subst (λ xs. Member p xs) a n) [
              | inl q ↦ absurd (not_==→ne p pfn u q)
              | inr r ↦ r
            ])
        | inr f ↦ rw f n
      ];
  bits = λ o. left_bits z order o rest s.bits (rw eq refl);
  orders = s.orders;
}

pub IsSound-mark_active :
    (z : MobilityZone) (pfn order : ℕ)
    → order ≤ max_order
    → IsSoundBut (only pfn) z
    → IsSound (mark_active z pfn order)
unfolding mark_active can_merge
IsSound-mark_active z pfn order h s = record {
  linked = λ p o u k. elim (Bool-cases (pfn == p)) [
    | inl e ↦ absurd (not_free (mark_active z pfn order) p o (rw e refl) k)
    | inr e ↦
        s.linked p o
          (elim (Bool-cases (p == pfn)) [
            | inl f ↦ absurd (not_==→ne pfn p e (sym (==→eq p pfn f)))
            | inr f ↦ f
          ])
          (simp e at k)
  ];
  bits = s.bits;
  orders = λ p. elim (Bool-cases (pfn == p)) [ inl e ↦ rw e h | inr e ↦ rw e (s.orders p) ];
}

pub IsSound-set_active :
    (z : MobilityZone) (pfn : ℕ) → IsSoundBut (only pfn) z → IsSound (set_active z pfn)
unfolding set_active can_merge
IsSound-set_active z pfn s = record {
  linked = λ p o u k. elim (Bool-cases (pfn == p)) [
    | inl e ↦ absurd (not_free (set_active z pfn) p o (rw e refl) k)
    | inr e ↦
        s.linked p o
          (elim (Bool-cases (p == pfn)) [
            | inl f ↦ absurd (not_==→ne pfn p e (sym (==→eq p pfn f)))
            | inr f ↦ f
          ])
          (simp e at k)
  ];
  bits = s.bits;
  orders =
      λ p. elim (Bool-cases (pfn == p)) [ inl e ↦ rw e (s.orders pfn) | inr e ↦ rw e (s.orders p) ];
}
