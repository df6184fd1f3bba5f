-- ===== src/Heap/Taken.antt =====
-- kernel/src/memory/heap.cpp: objects that go from a slab or its CPU to callers.
use erebus.Base.{
  ℕ, zero, suc, ◌-◌, ◌<◌, false, List, [], ◌∷◌, ◌++◌, length-append, Option, none, some, ◌≡◌, refl,
  sym, ap, subst, ◌⊎◌, inl, inr, arith,
}
use erebus.Heap.{Slab, CpuCache, chain, bumped, bump_alloc, alloc_local, claimed, new_slab}
use erebus.Heap.Places.{Place, in_pmm, is_given, Filled}
use erebus.Heap.Lists.{occurs-append, occurs-bumped, length-bumped}

abbrev pub get_or_else : {A : Type 0} → A → Option A → A
get_or_else a none = a
get_or_else a (some b) = b

pub List-cases : (xs : List ℕ) → (xs ≡ []) ⊎ ((x : ℕ) × (rest : List ℕ) × (xs ≡ x ∷ rest))
List-cases [] = inl refl
List-cases (x ∷ rest) = inr (x, rest, refl)

pub Left-cases : (n : ℕ) → (n ≡ 0) ⊎ ((k : ℕ) × (n ≡ suc k))
Left-cases zero = inl refl
Left-cases (suc k) = inr (k, refl)

pub append_is_nil : (xs ys : List ℕ) → xs ++ ys ≡ [] → ys ≡ []
append_is_nil [] ys h = h
append_is_nil (x ∷ xs) ys h = absurd (let z = h in cc)

-- An object that the fast path takes is the first free one of the CPU.
pub record Took (k : CpuCache) (obj : ℕ) (k' : CpuCache) : Type 0 where
  pub first : chain k ≡ obj ∷ chain k'
  pub page : k.page ≡ k'.page
  pub kept : k.cpu_partial ≡ k'.cpu_partial
  pub count : k.partial_count ≡ k'.partial_count

pub bump-Took :
    (k : CpuCache) (left obj : ℕ) (k' : CpuCache)
    → k.local_freelist ≡ []
    → k.bump_left ≡ left
    → bump_alloc k left ≡ some (obj, k')
    → Took k obj k'
bump-Took k zero obj k' e f h = absurd (let z = h in cc)
bump-Took k (suc left) obj k' e f h =
    let q = ap (get_or_else (obj, k')) h in
    subst (λ r. Took k r.0 r.1) q
      (record { first = rw (e, f) refl; page = refl; kept = refl; count = refl })

pub alloc_local-Took :
    (k : CpuCache) (obj : ℕ) (k' : CpuCache) → alloc_local k ≡ some (obj, k') → Took k obj k'
unfolding alloc_local
alloc_local-Took k obj k' h = elim (List-cases k.local_freelist) [
  | inl e ↦ bump-Took k k.bump_left obj k' e refl (rw (alloc_local, e) at h)
  | inr (x, rest, e) ↦
      let q = ap (get_or_else (obj, k')) (rw (alloc_local, e) at h) in
      subst (λ r. Took k r.0 r.1) q
        (record { first = rw e refl; page = refl; kept = refl; count = refl })
]

abbrev pub claimed_cpu : CpuCache → List ℕ → CpuCache
claimed_cpu k rest = record k { local_freelist = rest }

-- The first object that the CPU owns goes to a caller.
pub take_first :
    {total : ℕ} {sl : Slab} {live own own' : List ℕ} {obj : ℕ}
    → own ≡ obj ∷ own'
    → Filled total sl live own
    → Filled total sl (obj ∷ live) own'
take_first {total} {sl} {live} {own} {own'} {obj} e f =
    let g = subst (Filled total sl live) e f in
    record {
      once = λ i. ground (arith, g.once i);
      sum = omega (arith, g.sum);
      counted = g.counted;
      size = g.size;
    }

-- The remote list goes to the CPU, but for its first object.
pub claim_all :
    {total : ℕ} {sl : Slab} {live own : List ℕ} {obj : ℕ} {rest : List ℕ}
    → sl.remote ≡ obj ∷ rest
    → own ≡ []
    → Filled total sl live own
    → Filled total (claimed sl) (obj ∷ live) (rest ++ [])
claim_all {rest = rest} e z f = record {
  once = λ i. ground (arith, f.once i, occurs-append i rest []);
  sum = ground (arith, f.sum, length-append rest []);
  counted = omega (arith, f.size);
  size = f.size;
}

pub claim-Filled :
    {total : ℕ} {sl : Slab} {live : List ℕ} {obj : ℕ} {rest : List ℕ} (k : CpuCache)
    → sl.remote ≡ obj ∷ rest
    → chain k ≡ []
    → Filled total sl live (chain k)
    → Filled total (claimed sl) (obj ∷ live) (chain (claimed_cpu k rest))
claim-Filled {total} {sl} {live} {obj} {rest} k e z f =
    subst (λ o. Filled total (claimed sl) (obj ∷ live) (rest ++ o))
      (sym (append_is_nil k.local_freelist (bumped k.bump k.bump_left) z)) (claim_all e z f)

-- A CPU whose fast path fails owns no object.
pub alloc_local-none : (k : CpuCache) → alloc_local k ≡ none → chain k ≡ []
unfolding alloc_local
alloc_local-none k h = elim (List-cases k.local_freelist) [
  | inl e ↦ elim (Left-cases k.bump_left) [
    | inl z ↦ rw (e, z) refl
    | inr (left, z) ↦ absurd (let w = rw (alloc_local, e, z) at h in cc)
  ]
  | inr (x, rest, e) ↦ absurd (let w = rw (alloc_local, e) at h in cc)
]

pub given_place : (p : Place) → is_given p ≡ false → p ≡ in_pmm
given_place in_pmm h = refl
given_place _ h = absurd (let z = h in cc)

pub fresh-Filled :
    (total : ℕ) (live : List ℕ)
    → 0 < total
    → live ≡ []
    → Filled total (new_slab total) (0 ∷ live) (bumped 1 (total - 1))
fresh-Filled total live pos z = rw z (record {
  once = λ i. ground (arith, occurs-bumped i 1 (total - 1));
  sum = omega (arith, length-bumped 1 (total - 1));
  counted = omega arith;
  size = refl;
})
