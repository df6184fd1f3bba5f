-- ===== src/Klib/Bsearch/Finds.antt =====
-- klib/src/stdlib/bsearch.cpp: the loops end, and on ordered elements the key is found if it is there.
use erebus.Base.{
  ℕ, zero, suc, ◌+◌, ◌-◌, ◌*◌, ◌/◌, ◌^◌, ◌≤◌, ◌<◌, true, ◌==◌, ltb, leb, if◌then◌else◌, Option,
  none, some, ◌≡◌, ◌≢◌, refl, sym, subst, ap, ◌⊎◌, inl, inr, arith, Bool-cases, leb→le, not_leb→lt,
  ltb→lt, not_ltb→le, ==→eq, not_==→ne, ne_==, mul64,
}
use erebus.Base.Partial.{◌>>=◌, Yields}
use erebus.Klib.{Sign, below, equal, above, is_above}
use erebus.Klib.Bsearch.{gallop, halve, bsearch}

Sign-cases : (s : Sign) → (s ≡ below) ⊎ ((s ≡ equal) ⊎ (s ≡ above))
Sign-cases below = inl refl
Sign-cases equal = inr (inl refl)
Sign-cases above = inr (inr refl)

is_above→eq : (s : Sign) → is_above s ≡ true → s ≡ above
is_above→eq above e = refl
is_above→eq _ e = ground arith

module _ {A K : Type 0} (compar : K → A → Sign) (key : K) (a : ℕ → A) where
  abbrev pub sign : ℕ → Sign
  sign i = compar key (a i)

  -- The elements that the key is above come first, those that it is below come last.
  pub record Ordered (count : ℕ) : Type 0 where
    pub above_before : (i j : ℕ) → i < j → j < count → sign j ≡ above → sign i ≡ above
    pub below_after : (i j : ℕ) → i < j → j < count → sign i ≡ below → sign j ≡ below

  -- A position that is right for the result.
  abbrev pub IsAnswer : ℕ → Option ℕ → Type 0
  IsAnswer count (some i) = (i < count) × (sign i ≡ equal)
  IsAnswer count none = (i : ℕ) → i < count → sign i ≢ equal

  -- If an element is equal to the key, one from `left` to `right` is.
  abbrev Window : ℕ → ℕ → ℕ → Type 0
  Window count left right =
      (i : ℕ) → i < count → sign i ≡ equal → (j : ℕ) × (left ≤ j) × (j ≤ right) × (sign j ≡ equal)

  abbrev Bracket : ℕ → ℕ → Type 0
  Bracket count bound =
      ((i : ℕ) → i < bound / 2 → i < count → sign i ≡ above)
      × (bound < count → sign bound ≢ above)
      × (bound / 2 ≤ count)

  -- An element that is equal to the key stands after those that the key is above, before the others.
  after_above :
      {count : ℕ} → Ordered count → (m j : ℕ) → m < count → sign m ≡ above → sign j ≡ equal → m < j
  after_above o m j lt up e = elim (Bool-cases (ltb m j)) [
    | inl b ↦ ltb→lt _ _ b
    | inr b ↦ elim (Bool-cases (j == m)) [
      | inl g ↦ let same = ==→eq _ _ g in absurd (let k : sign j ≡ sign m = ap sign same in cc)
      | inr g ↦ absurd (
          let k = o.above_before j m (omega (arith, not_ltb→le _ _ b, not_==→ne _ _ g)) lt up in cc)
    ]
  ]

  before_below :
      {count : ℕ} → Ordered count → (m j : ℕ) → j < count → sign m ≡ below → sign j ≡ equal → j < m
  before_below o m j lt down e = elim (Bool-cases (ltb j m)) [
    | inl b ↦ ltb→lt _ _ b
    | inr b ↦ elim (Bool-cases (j == m)) [
      | inl g ↦ let same = ==→eq _ _ g in absurd (let k : sign j ≡ sign m = ap sign same in cc)
      | inr g ↦ absurd (
          let k = o.below_after m j (omega (arith, not_ltb→le _ _ b, not_==→ne _ _ g)) lt down in
          cc)
    ]
  ]

  past_above :
      {bound count : ℕ} (i : ℕ)
      → i < count
      → sign i ≡ equal
      → ((k : ℕ) → k < bound → k < count → sign k ≡ above)
      → bound ≤ i
  past_above {bound} i lt e before = elim (Bool-cases (ltb i bound)) [
    | inl b ↦ absurd (let k = before i (ltb→lt _ _ b) lt in cc)
    | inr b ↦ not_ltb→le _ _ b
  ]

  gallop-Bracket :
      (fuel count bound : ℕ)
      → Ordered count
      → count ≤ 2 ^ 63
      → 0 < bound
      → 0 < fuel
      → count < bound + fuel
      → bound / 2 ≤ count
      → ((i : ℕ) → i < bound / 2 → i < count → sign i ≡ above)
      → Yields (Bracket count) (gallop compar key a fuel count bound)
  unfolding gallop
  gallop-Bracket zero count bound o le pos pf f half s = absurd (omega arith)
  gallop-Bracket (suc fuel) count bound o le pos pf f half s = elim (Bool-cases (ltb bound count)) [
    | inr e ↦
        rw (gallop, e) (bound, refl, (s, λ lt. absurd (omega (arith, not_ltb→le _ _ e)), half))
    | inl e ↦ elim (Bool-cases (is_above (sign bound))) [
      | inr q ↦ rw (gallop, e, q) (bound, refl, (s, λ lt up. ground (arith, q, up), half))
      | inl q ↦
          let lt = ltb→lt _ _ e in
          let up = is_above→eq (sign bound) q in
          let twice : mul64 bound 2 ≡ bound * 2 = omega arith in
          let (b, eq, r) =
            gallop-Bracket fuel count (mul64 bound 2) o le (omega arith) (omega arith) (omega arith)
              (omega arith)
              (λ i u v. elim (Bool-cases (i == bound)) [
                | inl g ↦ subst (λ k. sign k ≡ above) (sym (==→eq _ _ g)) up
                | inr g ↦ o.above_before i bound (omega (arith, not_==→ne _ _ g)) lt up
              ]) in
          rw (gallop, e, q) (b, eq, r)
    ]
  ]

  -- What the first loop leaves has the key in it, if anything has.
  Bracket-Window :
      (count bound : ℕ)
      → 0 < count
      → Ordered count
      → Bracket count bound
      → Window count (bound / 2) (if ltb bound count then bound else count - 1)
  Bracket-Window count bound pos o (before, stop, half) i lt e =
      elim (Bool-cases (ltb bound count)) [
        | inr b ↦ rw b (i, past_above i lt e before, omega arith, e)
        | inl b ↦
            let in_count = ltb→lt bound count b in
            elim (Sign-cases (sign bound)) [
              | inl q ↦
                  rw b
                    (i, past_above i lt e before, omega (arith, before_below o bound i lt q e), e)
              | inr (inl q) ↦ rw b (bound, omega arith, omega arith, q)
              | inr (inr q) ↦ absurd (stop in_count q)
            ]
      ]

  halve-IsAnswer :
      (fuel count left right : ℕ)
      → Ordered count
      → right < count
      → left ≤ right + 1
      → right + 1 < left + fuel
      → Window count left right
      → Yields (IsAnswer count) (halve compar key a fuel left right)
  unfolding halve
  halve-IsAnswer zero count left right o lt le f w = absurd (omega arith)
  halve-IsAnswer (suc fuel) count left right o lt le f w = elim (Bool-cases (leb left right)) [
    | inr e ↦
        rw (halve, e)
          (
            none,
            refl,
            λ i u v. let (j, lo, hi, q) = w i u v in absurd (omega (arith, not_leb→lt _ _ e)),
          )
    | inl e ↦
        let mid = left + (right - left) / 2 in
        let in_range = leb→le _ _ e in
        elim (Sign-cases (sign mid)) [
          | inr (inl q) ↦ rw (halve, e, q) (some mid, refl, (omega arith, q))
          | inr (inr q) ↦
              let (r, eq, h) =
                halve-IsAnswer fuel count (mid + 1) right o lt (omega arith) (omega arith) (λ i u v.
                  let (j, lo, hi, g) = w i u v in
                  (j, omega (arith, after_above o mid j (omega arith) q g), hi, g)) in
              rw (halve, e, q) (r, eq, h)
          | inl q ↦ elim (Bool-cases (mid == 0)) [
            | inl z ↦
                rw (halve, e, q, z)
                  (
                    none,
                    refl,
                    λ i u v.
                        let before = before_below o mid i u q v in
                        absurd (omega (arith, ==→eq _ _ z)),
                  )
            | inr z ↦
                let some_before = not_==→ne _ _ z in
                let (r, eq, h) =
                  halve-IsAnswer fuel count left (mid - 1) o (omega arith) (omega arith)
                    (omega arith)
                    (λ i u v.
                      let (j, lo, hi, g) = w i u v in
                      (j, lo, omega (arith, before_below o mid j (omega arith) q g), g)) in
                rw (halve, e, q, z) (r, eq, h)
          ]
        ]
  ]

  searched :
      (count : ℕ)
      → Ordered count
      → count ≤ 2 ^ 63
      → 0 < count
      → Yields (IsAnswer count) (
          gallop compar key a (count + 1) count 1 >>= λ bound.
          halve compar key a (count + 1) (bound / 2) (if ltb bound count then bound else count - 1))
  searched count o le pos =
      let (b, e, h) =
        gallop-Bracket (count + 1) count 1 o le (omega arith) (omega arith) (omega arith)
          (omega arith) (λ i u v. absurd (omega arith)) in
      let (r, f, g) =
        halve-IsAnswer (count + 1) count (b / 2) (if ltb b count then b else count - 1) o
          (ground arith) (ground (arith, h.2)) (ground arith) (Bracket-Window count b pos o h) in
      rw e (r, f, g)

  -- On elements that the comparison orders around the key, at most 2 ^ 63 of them with bytes, both
  -- loops end and `bsearch` gives the position of an element that is equal to the key, or the null
  -- pointer if there is none; an empty array has none.
  pub bsearch-IsAnswer :
      (count size : ℕ)
      → count ≤ 2 ^ 63
      → size ≢ 0
      → Ordered count
      → Yields (IsAnswer count) (bsearch compar key a count size)
  bsearch-IsAnswer count size le ne o = elim (Bool-cases (count == 0)) [
    | inl z ↦ rw z (none, refl, λ i lt. absurd (omega (arith, ==→eq _ _ z)))
    | inr z ↦
        let some_there = not_==→ne _ _ z in
        let size_test = ne_== size 0 ne in
        elim (Sign-cases (sign 0)) [
          | inr (inl q) ↦ rw (z, size_test, q) (some 0, refl, (omega arith, q))
          | inl q ↦ rw (z, size_test, q) (searched count o le (omega arith))
          | inr (inr q) ↦ rw (z, size_test, q) (searched count o le (omega arith))
        ]
  ]
