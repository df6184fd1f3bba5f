-- ===== src/Klib/Tests.antt =====
-- klib/src/stdlib: the searches, the sort and the numbers on small inputs.
use erebus.Base.{
  ℕ, ◌*◌, ◌%◌, ◌≤◌, true, false, ltb, if◌then◌else◌, ◌≡◌, List, [], ◌∷◌, Option, arith, ℤ, s64,
}
use erebus.Base.Partial.{Yields}
use erebus.Klib.{Sign, below, equal, above}
use erebus.Klib.Qsort.{qsort}
use erebus.Klib.Qsort.Swaps.{Permuted}
use erebus.Klib.Qsort.Sorted.{Order, IsSorted, qsort-Permuted, qsort-IsSorted}
use erebus.Klib.Bsearch.{bsearch}
use erebus.Klib.Bsearch.Finds.{Ordered, IsAnswer, bsearch-IsAnswer}
use erebus.Klib.Strtol.{strto_x, ato_x, limit_of, skip_spaces, read_sign, read_prefix, digit_value}
use erebus.Klib.Strtol.Digits.{digit_span, value_from}
use erebus.Klib.Strtol.Clamped.{number_of, sign_of}
use erebus.Klib.Strtol.Decimal.{atol-strtol}

abbrev by_size : ℕ → ℕ → Sign
by_size a b = if ltb a b then below else if ltb b a then above else equal

by_size-Order : Order by_size
by_size-Order = record { asym = λ x y e. ground arith; trans = λ x y z e f. ground arith }

-- Forty elements, twice each of twenty.
abbrev shuffled : ℕ → ℕ
shuffled i = i * 7 % 20

abbrev doubled : ℕ → ℕ
doubled i = 2 * i

doubled-Ordered : Ordered by_size 9 doubled 8
doubled-Ordered = record {
  above_before = λ i j lt le e. ground arith;
  below_after = λ i j lt le e. ground arith;
}

qsort-Permuted_example : Yields (Permuted 40 shuffled) (qsort by_size shuffled 40 4)
qsort-Permuted_example = qsort-Permuted by_size shuffled 40 4

qsort-IsSorted_example : Yields (IsSorted by_size shuffled 40 4) (qsort by_size shuffled 40 4)
qsort-IsSorted_example = qsort-IsSorted by_size shuffled 40 4 by_size-Order (omega arith)

bsearch-IsAnswer_example : Yields (IsAnswer by_size 9 doubled 8) (bsearch by_size 9 doubled 8 4)
bsearch-IsAnswer_example =
    bsearch-IsAnswer by_size 9 doubled 8 4 (omega arith) (omega arith) doubled-Ordered

-- " -0x1fz" and "99999999999999999999".
abbrev hex_text : List ℕ
hex_text = 32 ∷ 45 ∷ 48 ∷ 120 ∷ 49 ∷ 102 ∷ 122 ∷ []

abbrev nines : List ℕ
nines =
    57 ∷ 57 ∷ 57 ∷ 57 ∷ 57 ∷ 57 ∷ 57 ∷ 57 ∷ 57 ∷ 57 ∷ 57 ∷ 57 ∷ 57 ∷ 57 ∷ 57 ∷ 57 ∷ 57 ∷ 57 ∷ 57
    ∷ 57 ∷ []

abbrev minus_seventy_two : List ℕ
minus_seventy_two = 45 ∷ 55 ∷ 50 ∷ 32 ∷ []

seventy_two-le : number_of minus_seventy_two 10 ≤ limit_of true (sign_of minus_seventy_two).0
unfolding skip_spaces read_sign read_prefix digit_span value_from digit_value
seventy_two-le = omega arith

atol-strtol_example : ato_x 64 minus_seventy_two ≡ (strto_x true minus_seventy_two 10).0
atol-strtol_example =
    atol-strtol minus_seventy_two (omega arith, (omega arith, (omega arith, (omega arith, tt))))
      seventy_two-le

abbrev hex_result : ℤ × List ℕ
hex_result = (s64 (strto_x true hex_text 0).0, (strto_x true hex_text 0).1)

abbrev nines_result : ℕ × List ℕ
nines_result = strto_x false nines 10

abbrev search_result : Option (Option ℕ)
search_result = bsearch by_size 14 doubled 8 4
