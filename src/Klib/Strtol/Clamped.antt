-- ===== src/Klib/Strtol/Clamped.antt =====
-- klib/src/stdlib/strtol.cpp and atoi.cpp: the result is what the digits write, up to the type's ends.
use erebus.Base.{
  ℕ, ◌-◌, ◌/◌, ◌%◌, ◌^◌, ◌<◌, Bool, true, false, ◌&&◌, ◌||◌, not, ltb, leb, if◌then◌else◌, List,
  ◌≡◌, refl, inl, inr, arith, Bool-cases, ℤ, pos, negsuc, sub_ℕ, clamp_ℤ,
}
use erebus.Klib.Strtol.{
  DigitLoop, no_digits, skip_spaces, read_sign, read_prefix, read_digits, limit_of, finish, strto_x,
}
use erebus.Klib.Strtol.Digits.{digit_span, value_from, is_nil, read_digits_lem}

abbrev pub is_base : ℕ → Bool
is_base b = leb 2 b && leb b 36

-- The number that a string writes in digits of a base, signed or not, and at the limits of the type.
abbrev pub long_of : Bool → ℕ → ℤ
long_of neg v = clamp_ℤ (if neg then sub_ℕ 0 v else pos v) (negsuc (2 ^ 63 - 1)) (pos (2 ^ 63 - 1))

abbrev pub unsigned_long_of : Bool → ℕ → ℕ
unsigned_long_of neg v =
    if ltb v (2 ^ 64) then (if neg then (2 ^ 64 - v) % 2 ^ 64 else v) else 2 ^ 64 - 1

-- The sign, the base and the digits that `strtoX` finds in a string.
abbrev pub sign_of : List ℕ → Bool × List ℕ
sign_of nptr = read_sign (skip_spaces nptr)

abbrev pub base_of : List ℕ → ℕ → ℕ × List ℕ
base_of nptr base = read_prefix base (sign_of nptr).1

abbrev pub digits_of : List ℕ → ℕ → List ℕ × List ℕ
digits_of nptr base = digit_span (base_of nptr base).0 (base_of nptr base).1

abbrev pub has_number : List ℕ → ℕ → Bool
has_number nptr base = is_base (base_of nptr base).0 && not (is_nil (digits_of nptr base).0)

abbrev pub number_of : List ℕ → ℕ → ℕ
number_of nptr base = value_from (base_of nptr base).0 0 (digits_of nptr base).0

finish_unsigned_long :
    (neg : Bool) (d : DigitLoop) (v : ℕ)
    → d.overflow ≡ ltb (limit_of false neg) v
    → (d.overflow ≡ false → d.acc ≡ v)
    → finish false neg d ≡ unsigned_long_of neg v
finish_unsigned_long true d v o a = ground arith
finish_unsigned_long false d v o a = ground arith

-- What `strtoX` returns, given how the number of the digits becomes one of the type.
abbrev pub outcome : {T : Type 0} → T → (Bool → ℕ → T) → List ℕ → ℕ → T × List ℕ
outcome failed convert nptr base =
    if has_number nptr base
    then (convert (sign_of nptr).0 (number_of nptr base), (digits_of nptr base).1)
    else (failed, nptr)

not-is_base : (b : ℕ) → (ltb b 2 || ltb 36 b) ≡ not (is_base b)
not-is_base b = ground arith

limit_fits : (signed neg : Bool) → limit_of signed neg < 2 ^ 64
limit_fits signed neg = ground arith

module _ {T : Type 0} (signed : Bool) (meaning : ℕ → T) (convert : Bool → ℕ → T)
    (finished : (neg : Bool) (d : DigitLoop) (v : ℕ)
      → d.overflow ≡ ltb (limit_of signed neg) v
      → (d.overflow ≡ false → d.acc ≡ v)
      → meaning (finish signed neg d) ≡ convert neg v) where
  pub strto_x-outcome :
      (nptr : List ℕ) (base : ℕ)
      → (meaning (strto_x signed nptr base).0, (strto_x signed nptr base).1)
        ≡ outcome (meaning 0) convert nptr base
  unfolding strto_x
  strto_x-outcome nptr base =
      let neg = (sign_of nptr).0 in
      let b = (base_of nptr base).0 in
      let s = (base_of nptr base).1 in
      let limit = limit_of signed neg in
      elim (Bool-cases (is_base b)) [
        | inr e ↦ rw (not-is_base b, e) refl
        | inl e ↦
            let two : 1 < b = ground arith in
            let out = read_digits b (limit / b) (limit % b) s no_digits in
            let r = read_digits_lem b limit two (limit_fits signed neg) s 0 false (omega arith) in
            elim (Bool-cases (is_nil (digit_span b s).0)) [
              | inl f ↦ rw (not-is_base b, e, r.any, f) refl
              | inr f ↦
                  rw
                    (
                      not-is_base b,
                      e,
                      r.any,
                      f,
                      r.rest,
                      finished neg out.0 (number_of nptr base) r.over r.value,
                    )
                    refl
            ]
      ]

-- `strtoul` gives what the digits write, its negative modulo 2 ^ 64 after a minus sign, and
-- 2 ^ 64 - 1 if the digits write more than that, whatever the sign; it leaves the pointer behind the
-- digits. If the base is not one or there are no digits, it gives 0 and leaves the pointer at the
-- start of the string.
pub strtoul_lem :
    (nptr : List ℕ) (base : ℕ) → strto_x false nptr base ≡ outcome 0 unsigned_long_of nptr base
strtoul_lem nptr base =
    strto_x-outcome false (λ n. n) unsigned_long_of finish_unsigned_long nptr base
