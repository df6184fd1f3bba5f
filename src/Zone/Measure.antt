-- ===== src/Zone/Measure.antt =====
-- Measures of the free blocks of a zone: a weight for every block, summed over all areas. The
-- number of free pages is one, and so is how often a frame lies in a free block.
use erebus.Base.{
  ℕ, zero, suc, ◌+◌, ◌/◌, ◌%◌, ◌^◌, ◌≤◌, ◌<◌, min, List, [], ◌∷◌, ltb, ◌==◌, arith, tests, ◌≡◌, ◌≢◌,
  refl, inl, inr, ◌⊎◌, Bool-cases, ==→eq, not_==→ne, subst, sym,
}
use erebus.Zone.{MobilityZone, put, remove, buddy_of, max_order}

abbrev pub Member : ℕ → List ℕ → Type 0
Member b [] = ⊥
Member b (x ∷ xs) = (b ≡ x) ⊎ Member b xs

pub Member-remove : (b c : ℕ) (xs : List ℕ) → c ≢ b → Member c xs → Member c (remove b xs)
unfolding remove
Member-remove b c [] ne h = h
Member-remove b c (x ∷ xs) ne h = elim (Bool-cases (x == b)) [
  | inl e ↦ rw e elim h [ inl eq ↦ absurd (ne (let k : x ≡ b = ==→eq x b e in cc)) | inr m ↦ m ]
  | inr e ↦ rw e elim h [ inl eq ↦ inl eq | inr m ↦ inr (Member-remove b c xs ne m) ]
]

module _ (μ : ℕ → ℕ → ℕ) where
  -- The weight of the blocks of one area, and of the areas below an order.
  abbrev pub weigh : ℕ → List ℕ → ℕ
  weigh order [] = 0
  weigh order (b ∷ bs) = μ order b + weigh order bs

  abbrev pub weigh_below : ℕ → (ℕ → List ℕ) → ℕ
  weigh_below zero areas = 0
  weigh_below (suc n) areas = weigh_below n areas + weigh n (areas n)

  unfoldable pub measure : MobilityZone → ℕ
  measure z = weigh_below (suc max_order) z.areas

  pub weigh-remove :
      (order b : ℕ) (xs : List ℕ)
      → Member b xs
      → weigh order xs ≡ μ order b + weigh order (remove b xs)
  unfolding remove
  weigh-remove order b [] h = absurd h
  weigh-remove order b (x ∷ xs) h = elim (Bool-cases (x == b)) [
    | inl e ↦ rw e (let k : x ≡ b = ==→eq x b e in rw k refl)
    | inr e ↦ rw e elim h [
      | inl eq ↦ absurd (not_==→ne x b e (let k : b ≡ x = eq in cc))
      | inr m ↦ omega (arith, weigh-remove order b xs m)
    ]
  ]

  weigh_below-put_above :
      (n i : ℕ) (areas : ℕ → List ℕ) (xs : List ℕ)
      → n ≤ i
      → weigh_below n (put areas i xs) ≡ weigh_below n areas
  weigh_below-put_above zero i areas xs h = refl
  weigh_below-put_above (suc n) i areas xs h = elim (Bool-cases (i == n)) [
    | inl e ↦ absurd (omega tests)
    | inr e ↦ rw e (
        let k : weigh_below n (put areas i xs) ≡ weigh_below n areas =
          weigh_below-put_above n i areas xs (omega arith) in
        omega arith)
  ]

  -- A write to one area changes the sum by what it changes there.
  pub weigh_below-put :
      (n i : ℕ) (areas : ℕ → List ℕ) (xs : List ℕ)
      → i < n
      → weigh_below n (put areas i xs) + weigh i (areas i) ≡ weigh_below n areas + weigh i xs
  weigh_below-put zero i areas xs h = absurd (omega arith)
  weigh_below-put (suc n) i areas xs h = elim (Bool-cases (i == n)) [
    | inl e ↦ rw e (
        let k : i ≡ n = ==→eq i n e in
        let l : weigh_below n (put areas i xs) ≡ weigh_below n areas =
          weigh_below-put_above n i areas xs (omega arith) in
        subst
          (λ m.
            weigh_below n (put areas i xs) + weigh m xs + weigh i (areas i)
            ≡ weigh_below n areas + weigh m (areas m) + weigh i xs)
          k (omega arith))
    | inr e ↦ rw e (
        let k : weigh_below n (put areas i xs) + weigh i (areas i)
            ≡ weigh_below n areas + weigh i xs =
          weigh_below-put n i areas xs (let ne : i ≢ n = not_==→ne i n e in omega arith) in
        omega arith)
  ]

-- A weight is additive when a block weighs what its two halves weigh.
abbrev pub Additive : (ℕ → ℕ → ℕ) → Type 0
Additive μ = (order b : ℕ) → μ (suc order) b ≡ μ order b + μ order (b + 2 ^ order)

div_zero : (a d : ℕ) → a < d → a / d ≡ 0
div_zero a d h = grind arith

-- A buddy lies one block above or below.
pub buddy_cases :
    (pfn order : ℕ)
    → (buddy_of pfn order ≡ pfn + 2 ^ order) ⊎ (pfn ≡ buddy_of pfn order + 2 ^ order)
unfolding buddy_of
buddy_cases pfn order = elim (Bool-cases (pfn / 2 ^ order % 2 == 0)) [
  | inl e ↦ rw e (inl refl)
  | inr e ↦ rw e (elim (Bool-cases (ltb pfn (2 ^ order))) [
    | inl l ↦ absurd (
        let k : pfn / 2 ^ order ≡ 0 = div_zero pfn (2 ^ order) (omega tests) in
        not_==→ne (pfn / 2 ^ order % 2) 0 e (rw k refl))
    | inr l ↦ inr (omega tests)
  ])
]

-- A block and its buddy weigh what the block they merge to weighs.
pub merged_weight :
    (μ : ℕ → ℕ → ℕ) (pfn order : ℕ)
    → Additive μ
    → μ (suc order) (min pfn (buddy_of pfn order)) ≡ μ order pfn + μ order (buddy_of pfn order)
merged_weight μ pfn order additive = elim (buddy_cases pfn order) [
  | inl e ↦
      let k : min pfn (buddy_of pfn order) ≡ pfn = omega arith in rw (k, e) (additive order pfn)
  | inr e ↦
      let k : min pfn (buddy_of pfn order) ≡ buddy_of pfn order = omega arith in
      let a : μ (suc order) (buddy_of pfn order)
          ≡ μ order (buddy_of pfn order) + μ order (buddy_of pfn order + 2 ^ order) =
        additive order (buddy_of pfn order) in
      rw k (
        subst (λ x. μ (suc order) (buddy_of pfn order) ≡ μ order x + μ order (buddy_of pfn order))
          (sym e) (omega (arith, a)))
]
