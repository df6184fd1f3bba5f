-- ===== src/Klib/Bsearch.antt =====
-- klib/src/stdlib/bsearch.cpp: a search that doubles a bound until it passes the key, then halves what
-- lies between the last two bounds. The result is a position, or `none` for the null pointer; where a
-- loop runs out of its own bound there is no result at all.
pub mod Finds
use erebus.Base.{
  ℕ, zero, suc, ◌+◌, ◌-◌, ◌*◌, ◌/◌, ◌%◌, ◌^◌, ◌≤◌, ◌<◌, Bool, true, false, ◌==◌, ◌&&◌, ◌||◌, ltb,
  leb, if◌then◌else◌, Option, none, some, mul64,
}
use erebus.Base.Partial.{◌>>=◌}
use erebus.Klib.{Sign, below, equal, above, is_equal, is_above}

module _ {A K : Type 0} (compar : K → A → Sign) (key : K) (a : ℕ → A) where
  -- The first loop, from `bound`.
  unfoldable pub gallop : ℕ → ℕ → ℕ → Option ℕ
  gallop zero count bound = none
  gallop (suc fuel) count bound = elim (ltb bound count && is_above (compar key (a bound))) [
    | true ↦ gallop fuel count (mul64 bound 2)
    | false ↦ some bound
  ]

  -- The second loop.
  unfoldable pub halve : ℕ → ℕ → ℕ → Option (Option ℕ)
  halve zero left right = none
  halve (suc fuel) left right =
      let mid = left + (right - left) / 2 in
      elim (leb left right) [
        | false ↦ some none
        | true ↦ elim (compar key (a mid)) [
          | equal ↦ some (some mid)
          | above ↦ halve fuel (mid + 1) right
          | below ↦ elim (mid == 0) [ true ↦ some none | false ↦ halve fuel left (mid - 1) ]
        ]
      ]

  abbrev pub bsearch : ℕ → ℕ → Option (Option ℕ)
  bsearch count size =
      if (count == 0) || (size == 0)
      then some none
      else if is_equal (compar key (a 0))
      then some (some 0)
      else do
        bound ← gallop (count + 1) count 1
        halve (count + 1) (bound / 2) (if ltb bound count then bound else count - 1)
