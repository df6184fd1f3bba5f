-- ===== src/Klib/Qsort/Swaps.antt =====
-- klib/src/stdlib/qsort.cpp: what exchanges of elements keep.
use erebus.Base.{ℕ, ◌≤◌, ◌<◌, ◌≡◌, ◌≢◌, ◌∙◌, inl, inr, refl, arith, Bool-cases}
use erebus.Base.Family.{put, total, total-put}
use erebus.Klib.Qsort.{swap, swap_if_less, less}
use erebus.Klib.{Sign}

-- The second array has the elements of the first in its first `n` places, each as often, whatever
-- they are told apart by; the other places are as they were.
pub record Permuted {A : Type 0} (n : ℕ) (a b : ℕ → A) : Type 1 where
  pub weighs : (w : A → ℕ) → total w n b ≡ total w n a
  pub outside : (i : ℕ) → n ≤ i → b i ≡ a i

module _ {A : Type 0} {n : ℕ} where
  pub refl-Permuted : (a : ℕ → A) → Permuted n a a
  refl-Permuted a = record { weighs = λ w. refl; outside = λ i le. refl }

  pub trans-Permuted : {a b c : ℕ → A} → Permuted n a b → Permuted n b c → Permuted n a c
  trans-Permuted p q = record {
    weighs = λ w. q.weighs w ∙ p.weighs w;
    outside = λ i le. q.outside i le ∙ p.outside i le;
  }

  pub swap-Permuted : (a : ℕ → A) (i j : ℕ) → i < n → j < n → Permuted n a (swap a i j)
  unfolding swap
  swap-Permuted a i j lt_i lt_j = record {
    weighs = λ w.
        let first = total-put w n a i (a j) lt_i in
        let second = total-put w n (put a i (a j)) j (a i) lt_j in ground arith;
    outside = λ k le. ground arith;
  }

  pub swap_if_less-Permuted :
      (compare : A → A → Sign) (a : ℕ → A) (i j : ℕ)
      → i < n
      → j < n
      → Permuted n a (swap_if_less compare a i j)
  swap_if_less-Permuted compare a i j lt_i lt_j = elim (Bool-cases (less compare a i j)) [
    | inl e ↦ rw e (swap-Permuted a i j lt_i lt_j)
    | inr e ↦ rw e (refl-Permuted a)
  ]

module _ {A : Type 0} (a : ℕ → A) where
  pub swap-first : (i j : ℕ) → swap a i j i ≡ a j
  unfolding swap
  swap-first i j = ground arith

  pub swap-second : (i j : ℕ) → swap a i j j ≡ a i
  unfolding swap
  swap-second i j = ground arith

  pub swap-other : (i j k : ℕ) → i ≢ k → j ≢ k → swap a i j k ≡ a k
  unfolding swap
  swap-other i j k ne_i ne_j = ground arith
