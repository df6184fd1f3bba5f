-- ===== src/Zone/Conserve.antt =====
-- kernel/src/memory/pmm/mobility-zone.cpp: what merging and extraction do to a measure of the free
-- blocks, and to the invariant.
use erebus.Base.{
  ℕ, zero, suc, ◌+◌, ◌-◌, ◌^◌, ◌≤◌, ◌<◌, min, Bool, true, false, not, List, [], ◌∷◌, Option, none,
  some, ◌==◌, arith, ◌≡◌, refl, ◌⊎◌, inl, inr, Bool-cases, Option-cases, subst, ==_self, ==→eq,
  not_==→ne, ◌≢◌,
}
use erebus.Zone.{
  MobilityZone, PageState, put, remove, max_order, is_nil, can_merge, give_back, take_buddy,
  buddy_of, merge_from, buddy_merge, pop_hot, mark_active, split_down, lowest_active, extract_block,
}
use erebus.Zone.Measure.{
  measure, weigh_below, weigh_below-put, weigh, weigh-remove, Member, Additive, merged_weight,
}
use erebus.Zone.Sound.{
  IsSound, IsSoundBut, only, IsSoundBut-give_back, IsSound-take_buddy, IsSoundBut-pop_hot,
  IsSound-mark_active,
}

module _ (μ : ℕ → ℕ → ℕ) where
  measure-give_back :
      (z : MobilityZone) (pfn order : ℕ)
      → order ≤ max_order
      → measure μ (give_back z pfn order) ≡ measure μ z + μ order pfn
  unfolding give_back measure
  measure-give_back z pfn order h =
      let k : weigh_below μ (suc max_order) (put z.areas order (pfn ∷ z.areas order))
            + weigh μ order (z.areas order)
          ≡ weigh_below μ (suc max_order) z.areas + (μ order pfn + weigh μ order (z.areas order)) =
        weigh_below-put μ (suc max_order) order z.areas (pfn ∷ z.areas order) (omega arith) in
      let l : weigh_below μ (suc max_order) (put z.areas order (pfn ∷ z.areas order))
          ≡ weigh_below μ (suc max_order) z.areas + μ order pfn =
        omega (arith, k) in
      l

  measure-take_buddy :
      (z : MobilityZone) (b order : ℕ)
      → order ≤ max_order
      → Member b (z.areas order)
      → measure μ z ≡ measure μ (take_buddy z b order) + μ order b
  unfolding take_buddy remove measure
  measure-take_buddy z b order h m =
      let rest = remove b (z.areas order) in
      let k : weigh_below μ (suc max_order) (put z.areas order rest) + weigh μ order (z.areas order)
          ≡ weigh_below μ (suc max_order) z.areas + weigh μ order rest =
        weigh_below-put μ (suc max_order) order z.areas rest (omega arith) in
      let w : weigh μ order (z.areas order) ≡ μ order b + weigh μ order rest =
        weigh-remove μ order b (z.areas order) m in
      let l : weigh_below μ (suc max_order) z.areas
          ≡ weigh_below μ (suc max_order) (put z.areas order rest) + μ order b =
        omega (arith, k, w) in
      l

  pub measure-pop_hot :
      (z : MobilityZone) (pfn order : ℕ) (rest : List ℕ)
      → order ≤ max_order
      → z.areas order ≡ pfn ∷ rest
      → measure μ z ≡ measure μ (pop_hot z order rest) + μ order pfn
  unfolding pop_hot measure
  measure-pop_hot z pfn order rest h eq =
      let k : weigh_below μ (suc max_order) (put z.areas order rest) + weigh μ order (z.areas order)
          ≡ weigh_below μ (suc max_order) z.areas + weigh μ order rest =
        weigh_below-put μ (suc max_order) order z.areas rest (omega arith) in
      let w : weigh μ order (z.areas order) ≡ μ order pfn + weigh μ order rest = rw eq refl in
      let l : weigh_below μ (suc max_order) z.areas
          ≡ weigh_below μ (suc max_order) (put z.areas order rest) + μ order pfn =
        omega (arith, k, w) in
      l

  merge_from_lem :
      (k : ℕ) (z : MobilityZone) (pfn order : ℕ)
      → Additive μ
      → k + order ≡ max_order
      → IsSound z
      → IsSound (merge_from k z pfn order)
        × (measure μ (merge_from k z pfn order) ≡ measure μ z + μ order pfn)
  unfolding merge_from
  merge_from_lem zero z pfn order a h s = (
    IsSoundBut-give_back (λ p. false) z pfn order (omega arith) s,
    measure-give_back z pfn order (omega arith),
  )
  merge_from_lem (suc k) z pfn order a h s =
      elim (Bool-cases (can_merge z (buddy_of pfn order) order)) [
        | inl e ↦
            let m : Member (buddy_of pfn order) (z.areas order) =
              s.linked (buddy_of pfn order) order refl e in
            let r =
              merge_from_lem k (take_buddy z (buddy_of pfn order) order)
                (min pfn (buddy_of pfn order)) (suc order) a (omega arith)
                (IsSound-take_buddy z (buddy_of pfn order) order s m) in
            rw (e, merge_from)
              (
                r.0,
                omega (
                  arith,
                  r.1,
                  measure-take_buddy z (buddy_of pfn order) order (omega arith) m,
                  merged_weight μ pfn order a,
                ),
              )
        | inr e ↦
            rw (e, merge_from)
              (
                IsSoundBut-give_back (λ p. false) z pfn order (omega arith) s,
                measure-give_back z pfn order (omega arith),
              )
      ]

  -- Freeing a block adds its weight to the free blocks, whatever buddies it merges with, and keeps
  -- the zone sound. The weight may be any in which a block weighs what its halves weigh.
  pub buddy_merge_lem :
      (z : MobilityZone) (pfn order : ℕ)
      → Additive μ
      → order ≤ max_order
      → IsSound z
      → IsSound (buddy_merge z pfn order)
        × (measure μ (buddy_merge z pfn order) ≡ measure μ z + μ order pfn)
  unfolding buddy_merge
  buddy_merge_lem z pfn order a h s =
      merge_from_lem (max_order - order) z pfn order a (omega arith) s

  pub split_down_lem :
      (k : ℕ) (z : MobilityZone) (pfn requested : ℕ)
      → Additive μ
      → requested + k ≤ max_order
      → IsSoundBut (only pfn) z
      → IsSoundBut (only pfn) (split_down k z pfn requested)
        × (measure μ (split_down k z pfn requested) + μ requested pfn
            ≡ measure μ z + μ (requested + k) pfn)
  unfolding split_down
  split_down_lem zero z pfn requested a h s =
      (s, let e : requested + 0 ≡ requested = omega arith in rw e refl)
  split_down_lem (suc k) z pfn requested a h s =
      let r =
        split_down_lem k (give_back z (pfn + 2 ^ (requested + k)) (requested + k)) pfn requested a
          (omega arith)
          (IsSoundBut-give_back (only pfn) z (pfn + 2 ^ (requested + k)) (requested + k)
            (omega arith) s) in
      let e : requested + suc k ≡ suc (requested + k) = omega arith in
      (
        r.0,
        rw e (
            omega (
              arith,
              r.1,
              measure-give_back z (pfn + 2 ^ (requested + k)) (requested + k) (omega arith),
              a (requested + k) pfn,
            )),
      )

pub lowest_active_lem :
    (k : ℕ) (bits : ℕ → Bool) (order c : ℕ)
    → lowest_active k bits order ≡ some c
    → (order ≤ c) × (c < order + k) × (bits c ≡ true)
unfolding lowest_active
lowest_active_lem zero bits order c h = absurd (let e : none ≡ some c = h in cc)
lowest_active_lem (suc k) bits order c h = elim (Bool-cases (bits order)) [
  | inl e ↦
      let q : some order ≡ some c = simp e at h in
      let q' : order ≡ c = cc in (omega arith, omega arith, subst (λ x. bits x ≡ true) q' e)
  | inr e ↦
      let r = lowest_active_lem k bits (suc order) c (simp e at h) in
      let r0 = r.0 in let r1 = r.1 in (omega arith, omega arith, r.2)
]

pub lowest_active-none :
    (k : ℕ) (bits : ℕ → Bool) (order o : ℕ)
    → lowest_active k bits order ≡ none
    → order ≤ o
    → o < order + k
    → bits o ≡ false
unfolding lowest_active
lowest_active-none zero bits order o h l m = absurd (omega arith)
lowest_active-none (suc k) bits order o h l m = elim (Bool-cases (bits order)) [
  | inl e ↦ let q : some order ≡ none = simp e at h in absurd (let x : none ≡ some order = cc in cc)
  | inr e ↦ elim (Bool-cases (order == o)) [
    | inl f ↦ subst (λ x. bits x ≡ false) (==→eq order o f) e
    | inr f ↦
        let n : order ≢ o = not_==→ne order o f in
        lowest_active-none k bits (suc order) o (simp e at h) (omega arith) (omega arith)
  ]
]

-- What extraction promises. A block leaves with exactly its own weight, its head marked active and
-- of the order asked for; when there is none, every area that could have served is empty.
abbrev pub Extracts : (ℕ → ℕ → ℕ) → MobilityZone → ℕ → MobilityZone × Option ℕ → Type 0
Extracts μ z requested (z', none) =
    (z' ≡ z) × ((o : ℕ) → requested ≤ o → o ≤ max_order → is_nil (z.areas o) ≡ true)
Extracts μ z requested (z', some pfn) =
    IsSound z'
    × (measure μ z ≡ measure μ z' + μ requested pfn)
    × ((z'.pages pfn).state ≡ PageState.active)
    × ((z'.pages pfn).order ≡ requested)

pub List-cases : (xs : List ℕ) → (xs ≡ []) ⊎ ((x : ℕ) × (rest : List ℕ) × (xs ≡ x ∷ rest))
List-cases [] = inl refl
List-cases (x ∷ rest) = inr (x, rest, refl)

clash : (b : Bool) → b ≡ true → b ≡ false → ⊥
clash b h k = let l : true ≡ false = cc in cc

not_injective : (b : Bool) → not b ≡ false → b ≡ true
not_injective true h = refl
not_injective false h = absurd (clash true refl h)

module _ (μ : ℕ → ℕ → ℕ) (z : MobilityZone) (requested : ℕ) where
  popped_lem :
      (order pfn : ℕ) (rest : List ℕ)
      → Additive μ
      → requested ≤ order
      → order ≤ max_order
      → IsSound z
      → z.areas order ≡ pfn ∷ rest
      → Extracts μ z requested (
        mark_active
            (split_down (order - requested) (pop_hot z order rest) pfn requested)
            pfn
            requested,
        some pfn,
      )
  unfolding mark_active measure
  popped_lem order pfn rest a l h s eq =
      let r =
        split_down_lem μ (order - requested) (pop_hot z order rest) pfn requested a (omega arith)
          (IsSoundBut-pop_hot z pfn order rest s eq) in
      let e : requested + (order - requested) ≡ order = omega arith in
      let m : measure μ (split_down (order - requested) (pop_hot z order rest) pfn requested)
            + μ requested pfn
          ≡ measure μ (pop_hot z order rest) + μ order pfn =
        subst
          (λ x.
            measure μ (split_down (order - requested) (pop_hot z order rest) pfn requested)
              + μ requested pfn
            ≡ measure μ (pop_hot z order rest) + μ x pfn)
          e r.1 in
      let p = measure-pop_hot μ z pfn order rest h eq in
      let q : measure μ z
          ≡ measure μ (split_down (order - requested) (pop_hot z order rest) pfn requested)
            + μ requested pfn =
        omega (arith, m, p) in
      (
        IsSound-mark_active (split_down (order - requested) (pop_hot z order rest) pfn requested)
            pfn requested (omega arith) r.0,
        q,
        rw (==_self pfn) refl,
        rw (==_self pfn) refl,
      )

  -- Extraction either hands out a block of the order asked for, its head marked active, or leaves
  -- the zone as it is because no area from that order up has a block. A block takes exactly its
  -- own weight from the free blocks, in any weight in which a block weighs what its halves weigh,
  -- and the zone stays sound.
  pub extract_block_lem :
      Additive μ
      → requested ≤ max_order
      → IsSound z
      → Extracts μ z requested (extract_block z requested)
  unfolding extract_block
  extract_block_lem a h s =
      elim (Option-cases (lowest_active (max_order + 1 - requested) z.active_orders requested)) [
        | inl e ↦
            rw (e, extract_block)
              (
                refl,
                λ o l m. empty_area o (
                    lowest_active-none (max_order + 1 - requested) z.active_orders requested o e l
                      (omega arith)),
              )
        | inr (order, e) ↦
            let r =
              lowest_active_lem (max_order + 1 - requested) z.active_orders requested order e in
            let r0 = r.0 in
            let r1 = r.1 in
            elim (List-cases (z.areas order)) [
              | inl n ↦
                  let b : z.active_orders order ≡ not (is_nil (z.areas order)) = s.bits order in
                  absurd (clash (z.active_orders order) r.2 (let f = simp n at b in cc))
              | inr (pfn, rest, n) ↦
                  rw (e, extract_block, n) (popped_lem order pfn rest a r0 (omega arith) s n)
            ]
      ]
    where
      empty_area : (o : ℕ) → z.active_orders o ≡ false → is_nil (z.areas o) ≡ true
      empty_area o b =
          let c : z.active_orders o ≡ not (is_nil (z.areas o)) = s.bits o in
          not_injective (is_nil (z.areas o)) (let d : not (is_nil (z.areas o)) ≡ false = cc in d)
