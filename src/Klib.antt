-- ===== src/Klib.antt =====
-- klib/src/stdlib: the routines of the kernel's C library that search, sort and read numbers.
pub mod Bsearch
pub mod Qsort
pub mod Strtol
mod Tests
use erebus.Base.{ℕ, zero, suc, Bool, true, false}
use erebus.Base.Family.{put}

-- The sign of what a comparison function returns, of which nothing else is read.
pub data Sign : Type 0 where
  below equal above : Sign

abbrev pub is_below : Sign → Bool
is_below below = true
is_below _ = false

abbrev pub is_equal : Sign → Bool
is_equal equal = true
is_equal _ = false

abbrev pub is_above : Sign → Bool
is_above above = true
is_above _ = false
