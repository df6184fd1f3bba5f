-- ===== src/Base/Family.antt =====
-- Families over the natural numbers, such as the threads of a system: the update at one index, and
-- weights summed over the indices below a bound.
use Prim.Native.Nat.{ℕ, zero, suc, ◌+◌, ◌≤◌, ◌<◌}
use mathlib.Core.Path.{◌≡◌, refl, subst, sym}
use mathlib.Core.Logic.{inl, inr}
use native.Mathlib.Omega.{arith}
use erebus.Base.Tests.{◌==◌, if◌then◌else◌, Bool-cases, ltb, ltb→lt, not_ltb→le, ==→eq}

abbrev pub put {ℓ} : {A : Type ℓ} → (ℕ → A) → ℕ → A → ℕ → A
put f i a j = if i == j then a else f j

module _ {A : Type 0} (w : A → ℕ) where
  unfoldable pub total : ℕ → (ℕ → A) → ℕ
  total zero f = 0
  total (suc n) f = total n f + w (f n)

  total-put_above : (n : ℕ) (f : ℕ → A) (i : ℕ) (a : A) → n ≤ i → total n (put f i a) ≡ total n f
  unfolding total
  total-put_above zero f i a h = refl
  total-put_above (suc n) f i a h = ground (arith, total-put_above n f i a)

  pub total-put :
      (n : ℕ) (f : ℕ → A) (i : ℕ) (a : A) → i < n → total n (put f i a) + w (f i) ≡ total n f + w a
  unfolding total
  total-put zero f i a h = absurd (omega arith)
  total-put (suc n) f i a h = elim (Bool-cases (ltb i n)) [
    | inl e ↦ ground (arith, total-put n f i a (ltb→lt i n e))
    | inr e ↦ ground (arith, total-put_above n f i a (not_ltb→le i n e))
  ]

  pub total_all_zero : (n : ℕ) (f : ℕ → A) → ((i : ℕ) → i < n → w (f i) ≡ 0) → total n f ≡ 0
  unfolding total
  total_all_zero zero f h = refl
  total_all_zero (suc n) f h =
      let a = total_all_zero n f (λ i l. h i (omega arith)) in
      let b = h n (omega arith) in omega arith

  pub total_bound : (n : ℕ) (f : ℕ → A) → ((a : A) → w a ≤ 1) → total n f ≤ n
  unfolding total
  total_bound zero f h = omega arith
  total_bound (suc n) f h = omega (arith, h (f n), total_bound n f h)

  -- One term of a sum is no larger than the sum.
  pub term-le : (n : ℕ) (f : ℕ → A) (i : ℕ) → i < n → w (f i) ≤ total n f
  unfolding total
  term-le zero f i h = absurd (omega arith)
  term-le (suc n) f i h = elim (Bool-cases (i == n)) [
    | inl e ↦ subst (λ j. w (f j) ≤ total n f + w (f n)) (sym (==→eq i n e)) (omega arith)
    | inr e ↦ ground (arith, term-le n f i)
  ]

  -- A sum that is not zero has a term that is not.
  pub total_pos : (n : ℕ) (f : ℕ → A) → 0 < total n f → (i : ℕ) × (i < n) × (0 < w (f i))
  unfolding total
  total_pos zero f h = absurd (omega arith)
  total_pos (suc n) f h = elim (Bool-cases (ltb 0 (w (f n)))) [
    | inl e ↦ (n, omega arith, ltb→lt 0 (w (f n)) e)
    | inr e ↦
        let z = not_ltb→le 0 (w (f n)) e in
        let (i, l, p) = total_pos n f (omega arith) in (i, omega arith, p)
  ]
