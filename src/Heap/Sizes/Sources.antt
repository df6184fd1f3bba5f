-- ===== src/Heap/Sizes/Sources.antt =====
-- kernel/src/memory/heap.cpp: what `kmalloc` takes is large enough and aligned.
use native.Mathlib.Nat.{mul-mod_right}
use erebus.Base.{
  ℕ, zero, suc, ◌+◌, ◌-◌, ◌*◌, ◌%◌, ◌^◌, ◌≤◌, ◌<◌, max, true, false, ltb, leb, ◌==◌, Bool-cases,
  leb→le, not_leb→lt, ltb→lt, ==→eq, ◌≡◌, refl, sym, subst, ◌⊎◌, inl, inr, arith,
}
use erebus.Heap.Sizes.{
  page_size, num_kmalloc_caches, log_ceil, size_to_index, has_single_bit, Source, null, cache,
  pages, pages_needed, source_for, kmalloc_source, bytes, IsWell,
}
use erebus.Heap.Sizes.Classes.{log_ceil_lem, pow_mono, size_to_index_lem}

pages_fit : (n r : ℕ) → pages_needed n ≤ 2 ^ r → n ≤ page_size * 2 ^ r
pages_fit n r h = ground arith

pages_order : (n r : ℕ) → n ≤ 2 ^ 51 → (r ≡ 0) ⊎ (2 ^ (r - 1) < n) → r ≤ 51
pages_order n r h (inl z) = omega arith
pages_order n r h (inr lt) = elim (Bool-cases (leb r 51)) [
  | inl e ↦ leb→le r 51 e
  | inr e ↦
      let up = pow_mono 51 (r - 1) (let a = not_leb→lt r 51 e in omega arith) in
      absurd (omega arith)
]

pow_split : (a d : ℕ) → 2 ^ (a + d) ≡ 2 ^ a * 2 ^ d
pow_split a zero = let e : a + 0 ≡ a = omega arith in rw e (omega arith)
pow_split a (suc d) =
    let e = pow_split a d in
    let up : 2 ^ suc (a + d) ≡ 2 ^ (a + d) + 2 ^ (a + d) = omega arith in
    subst (λ m. 2 ^ m ≡ 2 ^ a * 2 ^ suc d) (let k : suc (a + d) ≡ a + suc d = omega arith in k)
      (grind arith)

-- A power of two divides a larger one.
pow_divides : (a b : ℕ) → 2 ^ a ≤ 2 ^ b → 2 ^ b % 2 ^ a ≡ 0
pow_divides a b h = elim (Bool-cases (leb a b)) [
  | inl e ↦
      let le = leb→le a b e in
      subst (λ m. 2 ^ m % 2 ^ a ≡ 0) (let k : a + (b - a) ≡ b = omega arith in k)
        (rw (pow_split a (b - a)) (mul-mod_right (2 ^ a) (2 ^ (b - a))))
  | inr e ↦
      let up = pow_mono (suc b) a (not_leb→lt a b e) in
      let pos = pow_mono 0 b (omega arith) in absurd (omega arith)
]

source_for_lem : (n : ℕ) → n ≤ 2 ^ 63 → (n ≤ bytes (source_for n)) × IsWell (source_for n)
unfolding source_for
source_for_lem n h = elim (Bool-cases (ltb (size_to_index n) num_kmalloc_caches)) [
  | inl e ↦
      let lt = ltb→lt (size_to_index n) num_kmalloc_caches e in
      rw (source_for, e)
        (elim (size_to_index_lem n h) [
          | inl (le, (i, (fits, least))) ↦ (fits, lt)
          | inr (big, i) ↦ absurd (omega arith)
        ])
  | inr e ↦
      let few : pages_needed n ≤ 2 ^ 51 = ground arith in
      let (above, least) = log_ceil_lem (pages_needed n) (omega arith) in
      rw (source_for, e)
        (
          pages_fit n (log_ceil (pages_needed n)) above,
          pages_order (pages_needed n) (log_ceil (pages_needed n)) few least,
        )
]

single_bit : (n : ℕ) → has_single_bit n ≡ true → n ≡ 2 ^ log_ceil n
unfolding has_single_bit
single_bit n e = ==→eq n (2 ^ log_ceil n) e

pages_bytes : (o : ℕ) → page_size * 2 ^ o ≡ 2 ^ (12 + o)
pages_bytes o = sym (pow_split 12 o)

-- Bytes of a block are a multiple of every power of two that is no larger.
bytes-aligned : (src : Source) (k : ℕ) → 2 ^ k ≤ bytes src → bytes src % 2 ^ k ≡ 0
bytes-aligned null k h = absurd (let up = pow_mono 0 k (omega arith) in omega arith)
bytes-aligned (cache i) k h = pow_divides k (i + 3) h
bytes-aligned (pages o) k h =
    rw (pages_bytes o) (pow_divides k (12 + o) (subst (λ n. 2 ^ k ≤ n) (pages_bytes o) h))

-- For sizes and alignments up to 2 ^ 63: `kmalloc` has no source exactly for size 0 and for an alignment
-- that is no power of two. Else what it takes is a cache that exists or a block of at most 2 ^ 51 pages,
-- it has at least as many bytes as were asked for, and as each starts at a multiple of its bytes, it
-- starts at a multiple of the alignment.
pub kmalloc_source_lem :
    (size alignment : ℕ)
    → size ≤ 2 ^ 63
    → alignment ≤ 2 ^ 63
    → (((size ≡ 0) ⊎ (has_single_bit alignment ≡ false)) × (kmalloc_source size alignment ≡ null))
      ⊎ (((0 < size) × (has_single_bit alignment ≡ true))
          × ((size ≤ bytes (kmalloc_source size alignment))
              × (IsWell (kmalloc_source size alignment)
                  × (bytes (kmalloc_source size alignment) % alignment ≡ 0))))
unfolding kmalloc_source
kmalloc_source_lem size alignment h k = elim (Bool-cases (size == 0)) [
  | inl e ↦ rw (kmalloc_source, e) (inl (inl (==→eq size 0 e), refl))
  | inr e ↦ elim (Bool-cases (has_single_bit alignment)) [
    | inr f ↦ rw (kmalloc_source, e, f) (inl (inr refl, refl))
    | inl f ↦
        let (fits, well) = source_for_lem (max size alignment) (omega arith) in
        let bit = single_bit alignment f in
        let div =
          bytes-aligned (source_for (max size alignment)) (log_ceil alignment) (omega arith) in
        rw (kmalloc_source, e, f)
          (inr (
            (ground arith, refl),
            (
              omega arith,
              (well, subst (λ a. bytes (source_for (max size alignment)) % a ≡ 0) (sym bit) div),
            ),
          ))
  ]
]
