-- ===== src/Zone/Disjoint.antt =====
-- kernel/src/memory/pmm/mobility-zone.cpp: how often a frame lies in a free block is a measure.
use erebus.Base.{
  ℕ, suc, ◌+◌, ◌^◌, ◌≤◌, ◌<◌, ◌&&◌, some, leb, ltb, if◌then◌else◌, arith, ◌≡◌, refl, inl, inr,
  Bool-cases, subst, le→leb, lt→ltb, leb→le, ltb→lt, ◌⊎◌,
}
use erebus.Zone.{MobilityZone, max_order, buddy_merge, extract_block}
use erebus.Zone.Measure.{measure, Additive}
use erebus.Zone.Sound.{IsSound}
use erebus.Zone.Conserve.{Extracts, buddy_merge_lem, extract_block_lem}

-- 1 when the frame lies in the block.
abbrev pub covers : ℕ → ℕ → ℕ → ℕ
covers p order b = if leb b p && ltb p (b + 2 ^ order) then 1 else 0

pow_suc : (n : ℕ) → 2 ^ suc n ≡ 2 ^ n + 2 ^ n
pow_suc n = omega arith

covers_add :
    (p b d : ℕ)
    → (if leb b p && ltb p (b + (d + d)) then 1 else 0)
      ≡ (if leb b p && ltb p (b + d) then 1 else 0)
        + (if leb (b + d) p && ltb p (b + d + d) then 1 else 0)
covers_add p b d = ground arith

pub covers-Additive : (p : ℕ) → Additive (covers p)
covers-Additive p order b = rw (pow_suc order) (covers_add p b (2 ^ order))

abbrev pub IsDisjoint : MobilityZone → Type 0
IsDisjoint z = (p : ℕ) → measure (covers p) z ≤ 1

covers_own : (p order b : ℕ) → b ≤ p → p < b + 2 ^ order → covers p order b ≡ 1
covers_own p order b h k = rw (le→leb b p h, lt→ltb p (b + 2 ^ order) k) refl

covers_le : (p order b : ℕ) → covers p order b ≤ 1
covers_le p order b = ground arith

covers_cases : (p order b : ℕ) → (covers p order b ≡ 0) ⊎ ((b ≤ p) × (p < b + 2 ^ order))
covers_cases p order b = elim (Bool-cases (leb b p)) [
  | inl e ↦ elim (Bool-cases (ltb p (b + 2 ^ order))) [
    | inl f ↦ inr (leb→le b p e, ltb→lt p (b + 2 ^ order) f)
    | inr f ↦ inl (rw (e, f) refl)
  ]
  | inr e ↦ inl (rw e refl)
]

-- A block that is freed while none of its frames is free leaves the free blocks disjoint.
pub buddy_merge-IsDisjoint :
    (z : MobilityZone) (pfn order : ℕ)
    → order ≤ max_order
    → IsSound z
    → IsDisjoint z
    → ((p : ℕ) → pfn ≤ p → p < pfn + 2 ^ order → measure (covers p) z ≡ 0)
    → IsDisjoint (buddy_merge z pfn order)
buddy_merge-IsDisjoint z pfn order h s d unused p =
    let e = (buddy_merge_lem (covers p) z pfn order (covers-Additive p) h s).1 in
    let dp = d p in
    elim (covers_cases p order pfn) [
      | inl c ↦ omega arith
      | inr (l, k) ↦ let n = unused p l k in let o = covers_le p order pfn in omega arith
    ]

-- A block that extraction hands out was free, each of its frames once, and none of its frames is
-- free afterwards: the allocator cannot hand a frame out a second time.
pub extract_block-IsDisjoint :
    (z : MobilityZone) (requested pfn : ℕ) (z' : MobilityZone)
    → requested ≤ max_order
    → IsSound z
    → IsDisjoint z
    → extract_block z requested ≡ (z', some pfn)
    → IsDisjoint z'
      × ((p : ℕ)
          → pfn ≤ p
          → p < pfn + 2 ^ requested
          → (measure (covers p) z ≡ 1) × (measure (covers p) z' ≡ 0))
extract_block-IsDisjoint z requested pfn z' h s d eq =
    let r = λ (p : ℕ).
      subst (λ x. Extracts (covers p) z requested x) eq
        (extract_block_lem (covers p) z requested (covers-Additive p) h s) in
    (
      λ p. (let m = (r p).1 in let dp = d p in omega arith),
      λ p l k.
          (let m = (r p).1 in
            let dp = d p in
            let c : covers p requested pfn ≡ 1 = covers_own p requested pfn l k in
            (omega arith, omega arith)),
    )
