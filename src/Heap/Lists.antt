-- ===== src/Heap/Lists.antt =====
-- kernel/src/memory/heap.cpp: free lists counted, and functions changed at one index.
use mathlib.Core.Path.{fun_ext}
use erebus.Base.{
  ℕ, zero, suc, ◌+◌, ◌≤◌, ◌<◌, ◌==◌, ltb, if◌then◌else◌, Bool-cases, ==→eq, List, [], ◌∷◌, ◌++◌,
  length, ◌≡◌, refl, sym, subst, inl, inr, arith,
}
use erebus.Base.Family.{put}
use erebus.Heap.{bumped}
use erebus.Heap.Nodes.{remove_first}
use erebus.Heap.System.{occurs}

pub put_id {ℓ} : {A : Type ℓ} (f : ℕ → A) (i : ℕ) → f ≡ put f i (f i)
put_id f i = fun_ext λ j. elim (Bool-cases (i == j)) [
  | inl e ↦ rw e (subst (λ k. f j ≡ f k) (sym (==→eq i j e)) refl)
  | inr e ↦ rw e refl
]

pub put_at {ℓ} : {A : Type ℓ} (f : ℕ → A) (i : ℕ) {a : A} → f i ≡ a → f ≡ put f i a
put_at f i {a} e = subst (λ b. f ≡ put f i b) e (put_id f i)

pub put_same {ℓ} : {A : Type ℓ} (f : ℕ → A) (i : ℕ) (a : A) → put f i a i ≡ a
put_same f i a = ground arith

pub occurs-append : (i : ℕ) (xs ys : List ℕ) → occurs i (xs ++ ys) ≡ occurs i xs + occurs i ys
occurs-append i [] ys = omega arith
occurs-append i (x ∷ xs) ys = ground (arith, occurs-append i xs ys)

pub occurs-bumped :
    (i b left : ℕ)
    → occurs i (bumped b left) ≡ (if ltb i b then 0 else if ltb i (b + left) then 1 else 0)
occurs-bumped i b zero = ground arith
occurs-bumped i b (suc left) = ground (arith, occurs-bumped i (b + 1) left)

pub length-bumped : (b left : ℕ) → length (bumped b left) ≡ left
length-bumped b zero = refl
length-bumped b (suc left) = omega (arith, length-bumped (b + 1) left)

pub occurs-remove_first :
    (i j : ℕ) (xs : List ℕ)
    → 0 < occurs i xs
    → occurs j (remove_first i xs) + (if j == i then 1 else 0) ≡ occurs j xs
unfolding remove_first
occurs-remove_first i j [] h = absurd (omega arith)
occurs-remove_first i j (x ∷ xs) h = ground (arith, occurs-remove_first i j xs)

pub length-remove_first :
    (i : ℕ) (xs : List ℕ) → 0 < occurs i xs → length (remove_first i xs) + 1 ≡ length xs
unfolding remove_first
length-remove_first i [] h = absurd (omega arith)
length-remove_first i (x ∷ xs) h = ground (arith, length-remove_first i xs)

pub occurs-le-length : (i : ℕ) (xs : List ℕ) → occurs i xs ≤ length xs
occurs-le-length i [] = omega arith
occurs-le-length i (x ∷ xs) = ground (arith, occurs-le-length i xs)
