-- ===== src/Heap/Sizes/Classes.antt =====
-- kernel/src/memory/heap.cpp: the size classes.
use native.Mathlib.Nat.{pow-le-pow_right}
use erebus.Base.{
  ℕ, zero, suc, ◌+◌, ◌-◌, ◌^◌, ◌≤◌, ◌<◌, leb, Bool-cases, leb→le, not_leb→lt, ◌≡◌, refl, subst, ◌⊎◌,
  inl, inr, arith,
}
use erebus.Heap.Sizes.{num_kmalloc_caches, log_ceil_from, log_ceil, size_to_index}

record IsLog (n k r : ℕ) : Type 0 where
  above : n ≤ 2 ^ r
  least : (r ≡ k) ⊎ (2 ^ (r - 1) < n)
  from : k ≤ r

log_ceil_from_lem : (fuel k n : ℕ) → n ≤ 2 ^ (k + fuel) → IsLog n k (log_ceil_from fuel k n)
unfolding log_ceil_from
log_ceil_from_lem zero k n h = record {
  above = subst (λ m. n ≤ 2 ^ m) (omega arith) h;
  least = inl refl;
  from = omega arith;
}
log_ceil_from_lem (suc fuel) k n h = elim (Bool-cases (leb n (2 ^ k))) [
  | inl e ↦
      rw (log_ceil_from, e)
        (record { above = leb→le n (2 ^ k) e; least = inl refl; from = omega arith })
  | inr e ↦
      let i = log_ceil_from_lem fuel (k + 1) n (subst (λ m. n ≤ 2 ^ m) (omega arith) h) in
      rw (log_ceil_from, e)
        (record {
          above = i.above;
          least = elim i.least [
            | inl q ↦ inr (subst (λ m. 2 ^ m < n) (omega arith) (not_leb→lt n (2 ^ k) e))
            | inr lt ↦ inr lt
          ];
          from = omega (arith, i.from);
        })
]

-- `log_ceil` is the exponent of the least power of two that a number up to 2 ^ 63 is no larger than.
pub log_ceil_lem :
    (n : ℕ) → n ≤ 2 ^ 63 → (n ≤ 2 ^ log_ceil n) × ((log_ceil n ≡ 0) ⊎ (2 ^ (log_ceil n - 1) < n))
unfolding log_ceil
log_ceil_lem n h = let i = log_ceil_from_lem 63 0 n h in (i.above, i.least)

-- The exponent as far as the bounds of the caches ask for it.
pub pow_small : (r : ℕ) → r ≤ 3 → 2 ^ r ≤ 8
pow_small zero h = omega arith
pow_small (suc zero) h = omega arith
pow_small (suc (suc zero)) h = omega arith
pow_small (suc (suc (suc zero))) h = omega arith
pow_small (suc (suc (suc (suc r)))) h = absurd (omega arith)

pub pow_mono : (a b : ℕ) → a ≤ b → 2 ^ a ≤ 2 ^ b
pow_mono a b h = pow-le-pow_right (omega arith) h

index_cases :
    (size r : ℕ)
    → 8 < size
    → size ≤ 2 ^ r
    → (r ≡ 0) ⊎ (2 ^ (r - 1) < size)
    → ((size ≤ 2 ^ 15)
        × ((r - 3 < num_kmalloc_caches)
            × ((size ≤ 2 ^ (r - 3 + 3)) × ((r - 3 ≡ 0) ⊎ (2 ^ (r - 3 + 2) < size)))))
      ⊎ ((2 ^ 15 < size) × (num_kmalloc_caches ≤ r - 3))
index_cases size r big above least =
    let four : 4 ≤ r = elim (Bool-cases (leb r 3)) [
      | inl e ↦ absurd (let z = pow_small r (leb→le r 3 e) in omega arith)
      | inr e ↦ not_leb→lt r 3 e
    ] in
    let below : 2 ^ (r - 1) < size = elim least [ inl z ↦ absurd (omega arith) | inr lt ↦ lt ] in
    elim (Bool-cases (leb r 15)) [
      | inl e ↦
          let le = leb→le r 15 e in
          let top = pow_mono r 15 le in
          inl (
            omega arith,
            (
              omega arith,
              (
                subst (λ m. size ≤ 2 ^ m) (omega arith) above,
                inr (subst (λ m. 2 ^ m < size) (omega arith) below),
              ),
            ),
          )
      | inr e ↦
          let lt = not_leb→lt r 15 e in
          let low = pow_mono 15 (r - 1) (omega arith) in inr (omega arith, omega arith)
    ]

-- For a size from 1 up to 2 ^ 63: one of up to 2 ^ 15 gets the index of the smallest cache whose objects
-- it fits in, which are 8 bytes large or of a power of two, and a larger one gets an index behind those
-- of the caches.
pub size_to_index_lem :
    (size : ℕ)
    → size ≤ 2 ^ 63
    → let i = size_to_index size in
      ((size ≤ 2 ^ 15)
        × ((i < num_kmalloc_caches) × ((size ≤ 2 ^ (i + 3)) × ((i ≡ 0) ⊎ (2 ^ (i + 2) < size)))))
      ⊎ ((2 ^ 15 < size) × (num_kmalloc_caches ≤ i))
unfolding size_to_index
size_to_index_lem size h = elim (Bool-cases (leb size 8)) [
  | inl e ↦
      let le = leb→le size 8 e in
      rw (size_to_index, e) (inl (omega arith, (omega arith, (omega arith, inl refl))))
  | inr e ↦
      let (above, least) = log_ceil_lem size h in
      rw (size_to_index, e) (index_cases size (log_ceil size) (not_leb→lt size 8 e) above least)
]
