-- ===== src/Klib/Strtol/Digits.antt =====
-- klib/src/stdlib/strtol.cpp: the digits that are read, as a number without bound.
use erebus.Base.{
  ℕ, ◌+◌, ◌*◌, ◌/◌, ◌%◌, ◌^◌, ◌≤◌, ◌<◌, Bool, true, false, ◌==◌, ◌&&◌, ◌||◌, not, ltb, leb,
  if◌then◌else◌, List, [], ◌∷◌, ◌≡◌, refl, ap, sym, ◌∙◌, inl, inr, arith, Bool-cases, ltb→lt,
  not_ltb→le, lt→ltb, ==→eq, not_==→ne,
}
use erebus.Klib.Strtol.{digit_value, DigitLoop, take_digit, read_digits}

-- The digits at the head of a string, and what follows them.
unfoldable pub digit_span : ℕ → List ℕ → List ℕ × List ℕ
digit_span base [] = ([], [])
digit_span base (c ∷ s) =
    let (ds, rest) = digit_span base s in
    if ltb (digit_value c) base then (digit_value c ∷ ds, rest) else ([], c ∷ s)

-- The number that digits go on to write after `n`.
unfoldable pub value_from : ℕ → ℕ → List ℕ → ℕ
value_from base n [] = n
value_from base n (d ∷ ds) = value_from base (n * base + d) ds

abbrev pub is_nil : List ℕ → Bool
is_nil [] = true
is_nil (d ∷ ds) = false

value_grows : (base n : ℕ) (ds : List ℕ) → 0 < base → n ≤ value_from base n ds
unfolding value_from
value_grows base n [] pos = omega arith
value_grows base n (d ∷ ds) pos =
    let more = value_grows base (n * base + d) ds pos in
    let step : n ≤ n * base = grind arith in omega arith

-- A number is over the limit if its digits but the last are over the quotient of the limit, or are
-- the quotient and the last digit is over the remainder.
over_quotient : (base limit acc val : ℕ) → 1 < base → limit / base < acc → limit < acc * base + val
over_quotient base limit acc val two lt =
    let q = limit / base in
    let split : limit ≡ q * base + limit % base = grind arith in
    let small : limit % base < base = grind arith in
    let more : (q + 1) * base ≤ acc * base = grind arith in grind arith

under_quotient :
    (base limit acc val : ℕ) → 1 < base → val < base → acc < limit / base → acc * base + val ≤ limit
under_quotient base limit acc val two lt under =
    let q = limit / base in
    let split : limit ≡ q * base + limit % base = grind arith in
    let more : (acc + 1) * base ≤ q * base = grind arith in grind arith

at_quotient : (base limit : ℕ) → 1 < base → limit / base * base + limit % base ≡ limit
at_quotient base limit two = grind arith

-- The test against `cutoff` and `cutlim` is one against the limit.
cutoff_lem :
    (base limit acc val : ℕ)
    → 1 < base
    → val < base
    → (ltb (limit / base) acc || ((acc == limit / base) && ltb (limit % base) val))
      ≡ ltb limit (acc * base + val)
cutoff_lem base limit acc val two lt = elim (Bool-cases (ltb (limit / base) acc)) [
  | inl e ↦
      rw (e, lt→ltb limit (acc * base + val) (over_quotient base limit acc val two (ltb→lt _ _ e)))
        refl
  | inr e ↦ elim (Bool-cases (acc == limit / base)) [
    | inl f ↦
        let same = ==→eq _ _ f in
        let scaled : acc * base ≡ limit / base * base = ap (λ n. n * base) same in
        let whole = at_quotient base limit two in rw (e, f) (ground arith)
    | inr f ↦
        let below = not_ltb→le _ _ e in
        let apart = not_==→ne _ _ f in
        let under = under_quotient base limit acc val two lt (omega arith) in
        rw (e, f) (ground arith)
  ]
]

leb-not : (a b : ℕ) → leb a b ≡ not (ltb b a)
leb-not a b = ground arith

le→not_ltb : (a b : ℕ) → b ≤ a → ltb a b ≡ false
le→not_ltb a b le = ground arith

or_false : (b : Bool) → (b || false) ≡ b
or_false b = ground arith

or_true : (b : Bool) → (b || true) ≡ true
or_true b = ground arith

module _ (base limit : ℕ) (two : 1 < base) (fits : limit < 2 ^ 64) where
  abbrev read : List ℕ → DigitLoop → DigitLoop × List ℕ
  read s d = read_digits base (limit / base) (limit % base) s d

  abbrev take : ℕ → DigitLoop → DigitLoop
  take val d = take_digit base (limit / base) (limit % base) val d

  -- A state of the loop.
  abbrev at : ℕ → Bool → Bool → DigitLoop
  at acc any_digits overflow = record { acc = acc; any_digits = any_digits; overflow = overflow }

  take_over : (val acc : ℕ) (any : Bool) → take val (at acc any true) ≡ at acc true true
  unfolding take_digit
  take_over val acc any = refl

  take_within :
      (val acc : ℕ) (any : Bool)
      → val < base
      → acc * base + val ≤ limit
      → take val (at acc any false) ≡ at (acc * base + val) true false
  unfolding take_digit
  take_within val acc any lt le =
      rw (cutoff_lem base limit acc val two lt, le→not_ltb limit (acc * base + val) le)
        (let e : (acc * base % 2 ^ 64 + val) % 2 ^ 64 ≡ acc * base + val = omega arith in rw e refl)

  take_beyond :
      (val acc : ℕ) (any : Bool)
      → val < base
      → limit < acc * base + val
      → take val (at acc any false) ≡ at acc true true
  unfolding take_digit
  take_beyond val acc any lt gt =
      rw (cutoff_lem base limit acc val two lt, lt→ltb limit (acc * base + val) gt) refl

  read_at_digit :
      (c : ℕ) (s : List ℕ) (d : DigitLoop)
      → ltb (digit_value c) base ≡ true
      → read (c ∷ s) d ≡ read s (take (digit_value c) d)
  unfolding read_digits
  read_at_digit c s d e = rw (leb-not base (digit_value c), e) refl

  read_at_end :
      (c : ℕ) (s : List ℕ) (d : DigitLoop)
      → ltb (digit_value c) base ≡ false
      → read (c ∷ s) d ≡ (d, c ∷ s)
  unfolding read_digits
  read_at_end c s d e = rw (leb-not base (digit_value c), e) refl

  -- After an overflow the digits that are left are passed over.
  read_digits_over :
      (s : List ℕ) (acc : ℕ)
      → ((read s (at acc true true)).1 ≡ (digit_span base s).1)
        × ((read s (at acc true true)).0.any_digits ≡ true)
        × ((read s (at acc true true)).0.overflow ≡ true)
  unfolding digit_span read_digits
  read_digits_over [] acc = (refl, refl, refl)
  read_digits_over (c ∷ s) acc = elim (Bool-cases (ltb (digit_value c) base)) [
    | inl e ↦
        rw (read_at_digit c s (at acc true true) e, e, take_over (digit_value c) acc true)
          (read_digits_over s acc)
    | inr e ↦ rw (read_at_end c s (at acc true true) e, e) (refl, refl, refl)
  ]

  -- The loop passes over the digits, and overflows exactly if they write more than the limit; if not,
  -- it has what they write.
  pub record Read (s : List ℕ) (acc : ℕ) (any_digits : Bool) (out : DigitLoop × List ℕ)
      : Type 0 where
    pub rest : out.1 ≡ (digit_span base s).1
    pub any : out.0.any_digits ≡ (any_digits || not (is_nil (digit_span base s).0))
    pub over : out.0.overflow ≡ ltb limit (value_from base acc (digit_span base s).0)
    pub value : out.0.overflow ≡ false → out.0.acc ≡ value_from base acc (digit_span base s).0

  none-Read :
      (s : List ℕ) (acc : ℕ) (any : Bool)
      → acc ≤ limit
      → digit_span base s ≡ ([], s)
      → Read s acc any (at acc any false, s)
  unfolding value_from
  none-Read s acc any le e = record {
    rest = rw e refl;
    any = rw e (sym (or_false any));
    over = rw e (sym (le→not_ltb limit acc le));
    value = λ o. rw e refl;
  }

  digit-Read :
      (c : ℕ) (s : List ℕ) (acc : ℕ) (any : Bool) (out : DigitLoop × List ℕ)
      → digit_span base (c ∷ s) ≡ (digit_value c ∷ (digit_span base s).0, (digit_span base s).1)
      → Read s (acc * base + digit_value c) true out
      → Read (c ∷ s) acc any out
  unfolding value_from
  digit-Read c s acc any out e r = record {
    rest = rw e r.rest;
    any = rw e (r.any ∙ sym (or_true any));
    over = rw e r.over;
    value = λ o. rw e (r.value o);
  }

  over-Read : (s : List ℕ) (acc new : ℕ) → limit < new → Read s new true (read s (at acc true true))
  over-Read s acc new gt =
      let (r, a, o) = read_digits_over s acc in
      let more = value_grows base new (digit_span base s).0 (omega arith) in
      record {
        rest = r;
        any = a;
        over = o ∙ sym (lt→ltb limit (value_from base new (digit_span base s).0) (omega arith));
        value = λ f. absurd (ground (arith, o));
      }

  span_at_digit :
      (c : ℕ) (s : List ℕ)
      → ltb (digit_value c) base ≡ true
      → digit_span base (c ∷ s) ≡ (digit_value c ∷ (digit_span base s).0, (digit_span base s).1)
  unfolding digit_span
  span_at_digit c s e = rw e refl

  span_at_end :
      (c : ℕ) (s : List ℕ)
      → ltb (digit_value c) base ≡ false
      → digit_span base (c ∷ s) ≡ ([], c ∷ s)
  unfolding digit_span
  span_at_end c s e = rw e refl

  pub read_digits_lem :
      (s : List ℕ) (acc : ℕ) (any : Bool) → acc ≤ limit → Read s acc any (read s (at acc any false))
  unfolding digit_span read_digits
  read_digits_lem [] acc any le = none-Read [] acc any le refl
  read_digits_lem (c ∷ s) acc any le = elim (Bool-cases (ltb (digit_value c) base)) [
    | inr e ↦
        rw (read_at_end c s (at acc any false) e) (none-Read (c ∷ s) acc any le (span_at_end c s e))
    | inl e ↦
        let val = digit_value c in
        let lt : val < base = ltb→lt _ _ e in
        let new = acc * base + val in
        rw (read_at_digit c s (at acc any false) e) (
          digit-Read c s acc any (read s (take val (at acc any false))) (span_at_digit c s e)
            (elim (Bool-cases (ltb limit new)) [
              | inl o ↦
                  rw (take_beyond val acc any lt (ltb→lt _ _ o))
                    (over-Read s acc new (ltb→lt _ _ o))
              | inr o ↦
                  rw (take_within val acc any lt (not_ltb→le _ _ o))
                    (read_digits_lem s new true (not_ltb→le _ _ o))
            ]))
  ]
