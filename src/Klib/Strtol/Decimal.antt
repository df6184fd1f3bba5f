-- ===== src/Klib/Strtol/Decimal.antt =====
-- klib/src/stdlib/atoi.cpp: `atol`, against `strtol` in base ten.
use erebus.Base.{
  ℕ, ◌+◌, ◌-◌, ◌*◌, ◌%◌, ◌^◌, ◌≤◌, ◌<◌, Bool, true, false, ◌==◌, not, ltb, if◌then◌else◌, List, [],
  ◌∷◌, ◌≡◌, refl, ap, sym, ◌∙◌, inl, inr, arith, Bool-cases, sub64, All,
}
use erebus.Klib.Strtol.{
  DigitLoop, digit_value, isspace, char_at, advance, skip_spaces, read_sign, read_prefix, limit_of,
  saturated, finish, strto_x, read_decimal, ato_x,
}
use erebus.Klib.Strtol.Digits.{digit_span, value_from, is_nil}
use erebus.Klib.Strtol.Clamped.{sign_of, number_of, strto_x-outcome}

abbrev pub IsBytes : List ℕ → Type 0
IsBytes s = All (λ c. c < 256) s

-- The test for a decimal digit, and the digit.
decimal_test : (c : ℕ) → c < 256 → ltb (digit_value c) 10 ≡ ltb ((c + 2 ^ 8 - 48) % 2 ^ 8) 10
unfolding digit_value
decimal_test c lt = ground arith

decimal_digit :
    (c : ℕ) → c < 256 → ltb (digit_value c) 10 ≡ true → digit_value c ≡ (c + 2 ^ 8 - 48) % 2 ^ 8
unfolding digit_value
decimal_digit c lt e = ground arith

read_decimal_lem :
    (s : List ℕ) (n res : ℕ)
    → IsBytes s
    → res ≡ n % 2 ^ 64
    → read_decimal 64 s res ≡ value_from 10 n (digit_span 10 s).0 % 2 ^ 64
unfolding read_decimal value_from digit_span
read_decimal_lem [] n res b e = e
read_decimal_lem (c ∷ s) n res (lt, b) e = elim (Bool-cases (ltb (digit_value c) 10)) [
  | inl f ↦
      let d = (c + 2 ^ 8 - 48) % 2 ^ 8 in
      rw (sym (decimal_test c lt), f, decimal_digit c lt f)
        (read_decimal_lem s (n * 10 + d) ((res * 10 + d) % 2 ^ 64) b (omega arith))
  | inr f ↦ rw (sym (decimal_test c lt), f) e
]

skip_spaces-IsBytes : (s : List ℕ) → IsBytes s → IsBytes (skip_spaces s)
unfolding skip_spaces
skip_spaces-IsBytes [] b = b
skip_spaces-IsBytes (c ∷ s) (lt, b) = elim (Bool-cases (isspace c)) [
  | inl e ↦ rw e (skip_spaces-IsBytes s b)
  | inr e ↦ rw e (lt, b)
]

advance-IsBytes : (s : List ℕ) → IsBytes s → IsBytes (advance 1 s)
advance-IsBytes [] b = b
advance-IsBytes (c ∷ s) b = b.1

read_sign-IsBytes : (s : List ℕ) → IsBytes s → IsBytes (read_sign s).1
unfolding read_sign
read_sign-IsBytes s b = elim (Bool-cases (char_at s 0 == 45)) [
  | inl e ↦ rw e (advance-IsBytes s b)
  | inr e ↦ elim (Bool-cases (char_at s 0 == 43)) [
    | inl f ↦ rw (e, f) (advance-IsBytes s b)
    | inr f ↦ rw (e, f) b
  ]
]

-- The bits of a number with its sign, or of the end of the type.
abbrev bits_of : Bool → ℕ → ℕ
bits_of neg v =
    if ltb (limit_of true neg) v then saturated true neg else if neg then sub64 0 v else v

finish_bits :
    (neg : Bool) (d : DigitLoop) (v : ℕ)
    → d.overflow ≡ ltb (limit_of true neg) v
    → (d.overflow ≡ false → d.acc ≡ v)
    → finish true neg d ≡ bits_of neg v
finish_bits neg d v o a = ground arith

no_value : (ds : List ℕ) → is_nil ds ≡ true → value_from 10 0 ds ≡ 0
unfolding value_from
no_value [] e = refl
no_value (d ∷ ds) e = absurd (ground arith)

-- The two ends, with the sign, the digits and their number given.
same_bits :
    (neg : Bool) (v res : ℕ) (none_there : Bool)
    → res ≡ v % 2 ^ 64
    → v ≤ limit_of true neg
    → (none_there ≡ true → v ≡ 0)
    → (if neg then (2 ^ 64 - res) % 2 ^ 64 else res) ≡ (if not none_there then bits_of neg v else 0)
same_bits neg v res none_there e le z = ground arith

strtol_bits :
    (str : List ℕ)
    → (strto_x true str 10).0 ≡ (
        if not (is_nil (digit_span 10 (sign_of str).1).0)
        then bits_of (sign_of str).0 (value_from 10 0 (digit_span 10 (sign_of str).1).0)
        else 0)
unfolding read_prefix
strtol_bits str = elim (Bool-cases (is_nil (digit_span 10 (sign_of str).1).0)) [
  | inl e ↦
      rw e (ap (λ x. x.0) (strto_x-outcome true (λ n. n) bits_of finish_bits str 10) ∙ rw e refl)
  | inr e ↦
      rw e (ap (λ x. x.0) (strto_x-outcome true (λ n. n) bits_of finish_bits str 10) ∙ rw e refl)
]

-- On a string of bytes whose digits write a number that fits in a `long` with its sign, `atol` gives
-- the value that `strtol` gives in base ten, also where there are no digits.
pub atol-strtol :
    (str : List ℕ)
    → IsBytes str
    → number_of str 10 ≤ limit_of true (sign_of str).0
    → ato_x 64 str ≡ (strto_x true str 10).0
unfolding ato_x read_prefix
atol-strtol str b le =
    let (neg, s) = sign_of str in
    let ds = (digit_span 10 s).0 in
    let r =
      read_decimal_lem s 0 0 (read_sign-IsBytes (skip_spaces str) (skip_spaces-IsBytes str b))
        refl in
    same_bits neg (value_from 10 0 ds) (read_decimal 64 s 0) (is_nil ds) r le (no_value ds)
    ∙ sym (strtol_bits str)
