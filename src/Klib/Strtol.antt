-- ===== src/Klib/Strtol.antt =====
-- klib/src/stdlib/strtol.cpp and atoi.cpp, with `isspace` of klib/include/ctype.h: numbers read from
-- text. A string is the list of its bytes before the terminator, a pointer into it is the list from
-- there on. `base` and the results are bits: a negative `int` is a number above 36.
pub mod Digits
pub mod Clamped
pub mod Decimal
use erebus.Base.{
  ℕ, zero, suc, ◌+◌, ◌-◌, ◌*◌, ◌/◌, ◌%◌, ◌^◌, Bool, true, false, ◌==◌, ◌&&◌, ◌||◌, not, ltb, leb,
  if◌then◌else◌, List, [], ◌∷◌, add32, sub32, sub64, add64, mul64, get_or,
}

-- The byte at an offset, which is the terminator at the end.
abbrev pub char_at : List ℕ → ℕ → ℕ
char_at s i = get_or s i 0

abbrev pub advance : ℕ → List ℕ → List ℕ
advance zero s = s
advance (suc n) [] = []
advance (suc n) (c ∷ s) = advance n s

abbrev pub isspace : ℕ → Bool
isspace c = (c % 256 == 32) || ltb (sub32 (c % 256) 9) 5

-- `c | 0x20` of a byte.
abbrev pub fold_case : ℕ → ℕ
fold_case c = if c / 32 % 2 == 0 then c + 32 else c

unfoldable pub digit_value : ℕ → ℕ
digit_value c =
    if ltb (sub32 c 48) 10
    then sub32 c 48
    else let letter = sub32 (fold_case c) 97 in if ltb letter 26 then letter + 10 else 255

unfoldable pub skip_spaces : List ℕ → List ℕ
skip_spaces [] = []
skip_spaces (c ∷ s) = let rest = skip_spaces s in if isspace c then rest else c ∷ s

unfoldable pub read_sign : List ℕ → Bool × List ℕ
read_sign s =
    if char_at s 0 == 45
    then (true, advance 1 s)
    else if char_at s 0 == 43
    then (false, advance 1 s)
    else (false, s)

-- The base that the digits are read in, and where they begin.
unfoldable pub read_prefix : ℕ → List ℕ → ℕ × List ℕ
read_prefix base s =
    if ((base == 0) || (base == 16)) && ((char_at s 0 == 48) && (fold_case (char_at s 1) == 120))
    then (if ltb (digit_value (char_at s 2)) 16
        then (16, advance 2 s)
        else if base == 0
        then (8, s)
        else (base, s))
    else if base == 0
    then (if char_at s 0 == 48 then (8, s) else (10, s))
    else (base, s)

abbrev pub limit_of : Bool → Bool → ℕ
limit_of signed neg = if signed then (if neg then 2 ^ 63 - 1 + 1 else 2 ^ 63 - 1) else 2 ^ 64 - 1

pub record DigitLoop : Type 0 where
  pub acc : ℕ
  pub any_digits : Bool
  pub overflow : Bool

abbrev pub no_digits : DigitLoop
no_digits = record { acc = 0; any_digits = false; overflow = false }

-- What the loop does with one digit.
unfoldable pub take_digit : ℕ → ℕ → ℕ → ℕ → DigitLoop → DigitLoop
take_digit base cutoff cutlim val d =
    if d.overflow
    then record d { any_digits = true }
    else if ltb cutoff d.acc || ((d.acc == cutoff) && ltb cutlim val)
    then record d { any_digits = true; overflow = true }
    else record d { any_digits = true; acc = add64 (mul64 d.acc base) val }

unfoldable pub read_digits : ℕ → ℕ → ℕ → List ℕ → DigitLoop → DigitLoop × List ℕ
read_digits base cutoff cutlim [] d = (d, [])
read_digits base cutoff cutlim (c ∷ s) d =
    let val = digit_value c in
    let rest = read_digits base cutoff cutlim s (take_digit base cutoff cutlim val d) in
    if leb base val then (d, c ∷ s) else rest

abbrev pub saturated : Bool → Bool → ℕ
saturated signed neg = if signed then (if neg then 2 ^ 63 else 2 ^ 63 - 1) else 2 ^ 64 - 1

abbrev pub finish : Bool → Bool → DigitLoop → ℕ
finish signed neg d =
    if d.overflow then saturated signed neg else if neg then sub64 0 d.acc else d.acc

-- The result, and what `*endptr` points to.
unfoldable pub strto_x : Bool → List ℕ → ℕ → ℕ × List ℕ
strto_x signed nptr base =
    let (neg, s) = read_sign (skip_spaces nptr) in
    let (base, s) = read_prefix base s in
    if ltb base 2 || ltb 36 base
    then (0, nptr)
    else let limit = limit_of signed neg in
      let (d, s) = read_digits base (limit / base) (limit % base) s no_digits in
      if not d.any_digits then (0, nptr) else (finish signed neg d, s)

-- The loop of `atoX` for a type of `w` bits.
unfoldable pub read_decimal : ℕ → List ℕ → ℕ → ℕ
read_decimal w [] res = res
read_decimal w (ch ∷ s) res =
    let c = (ch + 2 ^ 8 - 48) % 2 ^ 8 in
    let rest = read_decimal w s ((res * 10 + c) % 2 ^ w) in if ltb c 10 then rest else res

unfoldable pub ato_x : ℕ → List ℕ → ℕ
ato_x w str =
    let (neg, s) = read_sign (skip_spaces str) in
    let res = read_decimal w s 0 in if neg then (2 ^ w - res) % 2 ^ w else res
