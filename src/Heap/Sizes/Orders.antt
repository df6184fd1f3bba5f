-- ===== src/Heap/Sizes/Orders.antt =====
-- kernel/src/memory/heap.cpp: the order of a slab, and how many objects it holds.
use erebus.Base.{
  ℕ, zero, suc, ◌+◌, ◌-◌, ◌*◌, ◌/◌, ◌^◌, ◌≤◌, ◌<◌, ltb, Bool-cases, ltb→lt, not_ltb→le, ◌≡◌, refl,
  sym, subst, ◌⊎◌, inl, inr, arith,
}
use erebus.Heap.Sizes.{page_size, grow_to_fit, grow_to_hold, slab_order_for, objects_per_slab}
use erebus.Heap.Sizes.Classes.{pow_small, pow_mono}

-- The first loop of `slab_order_for`.
record Fits (size from r : ℕ) : Type 0 where
  fits : size ≤ page_size * 2 ^ r
  least : (r ≡ from) ⊎ (page_size * 2 ^ (r - 1) < size)

grow_to_fit_lem :
    (fuel order size : ℕ)
    → size ≤ page_size * 2 ^ (order + fuel)
    → Fits size order (grow_to_fit fuel order size)
unfolding grow_to_fit
grow_to_fit_lem zero order size h = record {
  fits = subst (λ m. size ≤ page_size * 2 ^ m) (omega arith) h;
  least = inl refl;
}
grow_to_fit_lem (suc fuel) order size h = elim (Bool-cases (ltb (page_size * 2 ^ order) size)) [
  | inl e ↦
      let i =
        grow_to_fit_lem fuel (order + 1) size
          (subst (λ m. size ≤ page_size * 2 ^ m) (omega arith) h) in
      rw (grow_to_fit, e)
        (record {
          fits = i.fits;
          least = elim i.least [
            | inl q ↦ inr (
                subst (λ m. page_size * 2 ^ m < size) (omega arith)
                  (ltb→lt (page_size * 2 ^ order) size e))
            | inr lt ↦ inr lt
          ];
        })
  | inr e ↦
      rw (grow_to_fit, e)
        (record { fits = not_ltb→le (page_size * 2 ^ order) size e; least = inl refl })
]

-- The second one, which is done after three rounds.
record HoldsMany (size first r : ℕ) : Type 0 where
  from : first ≤ r
  stops : (r ≡ first) ⊎ (r ≤ 3)
  enough : (3 ≤ r) ⊎ (32 ≤ objects_per_slab size r)

grow_to_hold_lem :
    (fuel order size : ℕ) → 3 ≤ order + fuel → HoldsMany size order (grow_to_hold fuel order size)
unfolding grow_to_hold
grow_to_hold_lem zero order size h = record {
  from = omega arith;
  stops = inl refl;
  enough = inl (omega arith);
}
grow_to_hold_lem (suc fuel) order size h = elim (Bool-cases (ltb order 3)) [
  | inl e ↦ elim (Bool-cases (ltb (page_size * 2 ^ order / size) 32)) [
    | inl f ↦
        let i = grow_to_hold_lem fuel (order + 1) size (omega arith) in
        rw (grow_to_hold, e, f)
          (record {
            from = omega (arith, i.from);
            stops =
                inr (let z = ltb→lt order 3 e in elim i.stops [ inl q ↦ omega arith | inr q ↦ q ]);
            enough = i.enough;
          })
    | inr f ↦
        rw (grow_to_hold, e, f)
          (record {
            from = omega arith;
            stops = inl refl;
            enough = inr (not_ltb→le (page_size * 2 ^ order / size) 32 f);
          })
  ]
  | inr e ↦
      rw (grow_to_hold, e)
        (record { from = omega arith; stops = inl refl; enough = inl (not_ltb→le order 3 e) })
]

div_pos : (n m : ℕ) → 0 < m → m ≤ n → 0 < n / m
div_pos n m pos h = grind arith

div_less : (n m b : ℕ) → 0 < m → n < b * m → n / m < b
div_less n m b pos h = grind arith

few_objects :
    (size o : ℕ)
    → 8 ≤ size
    → (o ≤ 3) ⊎ (page_size * 2 ^ (o - 1) < size)
    → objects_per_slab size o < 2 ^ 15
few_objects size o big (inl le) =
    let up = pow_small o le in
    div_less (page_size * 2 ^ o) size (2 ^ 15) (omega arith) (omega arith)
few_objects size zero big (inr lt) = div_less page_size size (2 ^ 15) (omega arith) (omega arith)
few_objects size (suc o) big (inr lt) =
    let lower =
      subst (λ m. page_size * 2 ^ m < size) (let e : suc o - 1 ≡ o = omega arith in e) lt in
    div_less (page_size * 2 ^ suc o) size (2 ^ 15) (omega arith) (omega arith)

-- For objects of 8 up to 2 ^ 32 - 1 bytes, the order that `slab_order_for` chooses makes a slab of at
-- least one object, of fewer than 2 ^ 15, so that their number fits the state word and no index is the
-- mark of an empty list, and of at least 32 unless the order is 3 or more; and an order above 3 is the
-- least one that holds an object.
pub slab_order_for_lem :
    (size : ℕ)
    → 8 ≤ size
    → size < 2 ^ 32
    → let o = slab_order_for size in
      ((0 < objects_per_slab size o) × (objects_per_slab size o < 2 ^ 15))
      × (((3 ≤ o) ⊎ (32 ≤ objects_per_slab size o)) × ((o ≤ 3) ⊎ (page_size * 2 ^ (o - 1) < size)))
unfolding slab_order_for
slab_order_for_lem size big small =
    let fit = grow_to_fit_lem 20 0 size (omega arith) in
    order_cases size (grow_to_fit 20 0 size) (grow_to_hold 3 (grow_to_fit 20 0 size) size) big
      fit.fits fit.least (grow_to_hold_lem 3 (grow_to_fit 20 0 size) size (omega arith))
  where
    order_cases :
        (size f o : ℕ)
        → 8 ≤ size
        → size ≤ page_size * 2 ^ f
        → (f ≡ 0) ⊎ (page_size * 2 ^ (f - 1) < size)
        → HoldsMany size f o
        → ((0 < objects_per_slab size o) × (objects_per_slab size o < 2 ^ 15))
          × (((3 ≤ o) ⊎ (32 ≤ objects_per_slab size o))
              × ((o ≤ 3) ⊎ (page_size * 2 ^ (o - 1) < size)))
    order_cases size f o big fits least h =
        let up = pow_mono f o h.from in
        let low : (o ≤ 3) ⊎ (page_size * 2 ^ (o - 1) < size) = elim h.stops [
          | inr le ↦ inl le
          | inl q ↦ elim least [
            | inl z ↦ inl (omega arith)
            | inr lt ↦ inr (subst (λ m. page_size * 2 ^ (m - 1) < size) (sym q) lt)
          ]
        ] in
        (
          (
            div_pos (page_size * 2 ^ o) size (omega arith) (omega arith),
            few_objects size o big low,
          ),
          (h.enough, low),
        )
