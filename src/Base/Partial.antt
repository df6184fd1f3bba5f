-- ===== src/Base/Partial.antt =====
-- Computations that may give nothing: loops on a bound that is too small, and what it takes for one
-- to give a result.
use mathlib.Core.Path.{◌≡◌}
use mathlib.Core.Option.{Option, none, some}

infixl 5 ◌>>=◌
abbrev pub ◌>>=◌ {ℓ κ} : {A : Type ℓ} {B : Type κ} → Option A → (A → Option B) → Option B
none >>= f = none
some a >>= f = f a

-- There is a value, and it satisfies the predicate.
abbrev pub Yields {ℓ κ} : {A : Type ℓ} → (A → Type κ) → Option A → Type (ℓ ⊔ κ)
Yields {A = A} P o = (a : A) × (o ≡ some a) × P a
