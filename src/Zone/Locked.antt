-- ===== src/Zone/Locked.antt =====
-- kernel/src/memory/pmm/mobility-zone.cpp: the free-page counter under the operations with the lock held.
use erebus.Base.{
  ℕ, zero, suc, ◌+◌, ◌-◌, ◌%◌, ◌^◌, ◌≤◌, min, List, [], ◌∷◌, Option, none, some, arith, add64,
  sub64, ◌≡◌, refl, inl, inr, Bool-cases, Option-cases, subst, sym, ap,
}
use erebus.Zone.{
  MobilityZone, max_order, can_merge, give_back, take_buddy, buddy_of, merge_from, buddy_merge,
  pop_hot, mark_active, split_down, lowest_active, extract_block, flush_from, flush_deferred_frees,
  add_free_pages, sub_free_pages, alloc_extracted, alloc_pages_locked, free_page_locked,
}
use erebus.Zone.Measure.{measure, Additive}
use erebus.Zone.Sound.{IsSound}
use erebus.Zone.Conserve.{Extracts, buddy_merge_lem, extract_block_lem, List-cases}

abbrev pub block_pages : ℕ → ℕ → ℕ
block_pages order b = 2 ^ order

pub block_pages-Additive : Additive block_pages
block_pages-Additive order b = let e : 2 ^ suc order ≡ 2 ^ order + 2 ^ order = omega arith in e

-- The pages in the free blocks.
abbrev pub page_count : MobilityZone → ℕ
page_count z = measure block_pages z

-- The zone is sound, and its counter is the number of free pages, as a word.
pub record IsCounted (z : MobilityZone) : Type 0 where
  pub sound : IsSound z
  pub counted : z.total_free_pages ≡ page_count z % 2 ^ 64

-- Neither the merge loop nor the split touches the counter.
merge_from-total :
    (k : ℕ) (z : MobilityZone) (pfn order : ℕ)
    → (merge_from k z pfn order).total_free_pages ≡ z.total_free_pages
unfolding merge_from give_back take_buddy
merge_from-total zero z pfn order = refl
merge_from-total (suc k) z pfn order = elim (Bool-cases (can_merge z (buddy_of pfn order) order)) [
  | inl e ↦
      rw (e, merge_from)
        (merge_from-total k (take_buddy z (buddy_of pfn order) order) (min pfn (buddy_of pfn order))
          (suc order))
  | inr e ↦ rw (e, merge_from) refl
]

pub buddy_merge-total :
    (z : MobilityZone) (pfn order : ℕ)
    → (buddy_merge z pfn order).total_free_pages ≡ z.total_free_pages
unfolding buddy_merge
buddy_merge-total z pfn order = merge_from-total (max_order - order) z pfn order

pub split_down-total :
    (k : ℕ) (z : MobilityZone) (pfn requested : ℕ)
    → (split_down k z pfn requested).total_free_pages ≡ z.total_free_pages
unfolding split_down give_back
split_down-total zero z pfn requested = refl
split_down-total (suc k) z pfn requested =
    split_down-total k (give_back z (pfn + 2 ^ (requested + k)) (requested + k)) pfn requested

pub pop_hot-total :
    (z : MobilityZone) (order : ℕ) (rest : List ℕ)
    → (pop_hot z order rest).total_free_pages ≡ z.total_free_pages
unfolding pop_hot
pop_hot-total z order rest = refl

-- What is not a part of the invariant may be overwritten.
pub IsSound-add_free_pages : (z : MobilityZone) (n : ℕ) → IsSound z → IsSound (add_free_pages z n)
unfolding can_merge
IsSound-add_free_pages z n s = record { linked = s.linked; bits = s.bits; orders = s.orders }

pub IsSound-sub_free_pages : (z : MobilityZone) (n : ℕ) → IsSound z → IsSound (sub_free_pages z n)
unfolding can_merge
IsSound-sub_free_pages z n s = record { linked = s.linked; bits = s.bits; orders = s.orders }

-- A flush adds to the free pages what it reports, as a word.
abbrev Flushes : MobilityZone → ℕ → MobilityZone × ℕ → Type 0
Flushes z freed (z', freed') =
    IsSound z'
    × (z'.total_free_pages ≡ z.total_free_pages)
    × ((page_count z' + freed) % 2 ^ 64 ≡ (page_count z + freed') % 2 ^ 64)

mod_step :
    (x w f d f' : ℕ)
    → (x + (f + d) % 2 ^ 64) % 2 ^ 64 ≡ (w + d + f') % 2 ^ 64
    → (x + f) % 2 ^ 64 ≡ (w + f') % 2 ^ 64
mod_step x w f d f' h = omega arith

pub counter_add :
    (t t' x y n : ℕ)
    → t ≡ x % 2 ^ 64
    → t' ≡ t
    → (y + 0) % 2 ^ 64 ≡ (x + n) % 2 ^ 64
    → add64 t' n ≡ y % 2 ^ 64
counter_add t t' x y n h k l = omega arith

pub counter_sub :
    (t t' x y n : ℕ) → t ≡ x % 2 ^ 64 → t' ≡ t → x ≡ y + n → sub64 t' (n % 2 ^ 64) ≡ y % 2 ^ 64
counter_sub t t' x y n h k l = omega arith

flush_step :
    (z : MobilityZone) (p freed : ℕ)
    → page_count (buddy_merge z p (z.pages p).order) ≡ page_count z + 2 ^ (z.pages p).order
    → (buddy_merge z p (z.pages p).order).total_free_pages ≡ z.total_free_pages
    → (r : MobilityZone × ℕ)
    → Flushes (buddy_merge z p (z.pages p).order) (add64 freed (2 ^ (z.pages p).order)) r
    → Flushes z freed r
flush_step z p freed m t (z', freed') (s, e, c) = (
  s,
  let k : z'.total_free_pages ≡ z.total_free_pages = cc in k,
  mod_step (page_count z') (page_count z) freed (2 ^ (z.pages p).order) freed' (
      subst
        (λ x.
          (page_count z' + add64 freed (2 ^ (z.pages p).order)) % 2 ^ 64 ≡ (x + freed') % 2 ^ 64)
        m c),
)

flushed :
    (z : MobilityZone) (r : MobilityZone × ℕ)
    → z.total_free_pages ≡ page_count z % 2 ^ 64
    → Flushes (record z { deferred_frees = [] }) 0 r
    → IsCounted (add_free_pages r.0 r.1)
unfolding measure
flushed z (z', freed') h (s, e, c) = record {
  sound = IsSound-add_free_pages z' freed' s;
  counted =
      counter_add z.total_free_pages z'.total_free_pages (page_count z) (page_count z') freed' h e
        c;
}

flush_from_lem :
    (ps : List ℕ) (z : MobilityZone) (freed : ℕ)
    → IsSound z
    → Flushes z freed (flush_from ps z freed)
unfolding flush_from
flush_from_lem [] z freed s = (s, refl, refl)
flush_from_lem (p ∷ ps) z freed s =
    let m = buddy_merge_lem block_pages z p (z.pages p).order block_pages-Additive (s.orders p) s in
    let r =
      flush_from_lem ps (buddy_merge z p (z.pages p).order) (add64 freed (2 ^ (z.pages p).order))
        m.0 in
    let t = buddy_merge-total z p (z.pages p).order in
    flush_step z p freed m.1 t
      (flush_from ps (buddy_merge z p (z.pages p).order) (add64 freed (2 ^ (z.pages p).order))) r

pub IsCounted-flush_deferred_frees :
    (z : MobilityZone) → IsCounted z → IsCounted (flush_deferred_frees z)
unfolding flush_deferred_frees can_merge measure
IsCounted-flush_deferred_frees z c =
    let z₀ : MobilityZone = record z { deferred_frees = [] } in
    let s : IsSound z₀ = record {
      linked = c.sound.linked;
      bits = c.sound.bits;
      orders = c.sound.orders;
    } in
    flushed z (flush_from z.deferred_frees (record z { deferred_frees = [] }) 0) c.counted
      (flush_from_lem z.deferred_frees (record z { deferred_frees = [] }) 0 s)

pub plus_zero : (y x : ℕ) → y ≡ x → y + 0 ≡ x
plus_zero y x h = omega arith

pub added :
    (z z' : MobilityZone) (n : ℕ)
    → z.total_free_pages ≡ page_count z % 2 ^ 64
    → z'.total_free_pages ≡ z.total_free_pages
    → IsSound z'
    → page_count z' ≡ page_count z + n
    → IsCounted (add_free_pages z' n)
unfolding measure
added z z' n h t s m = record {
  sound = IsSound-add_free_pages z' n s;
  counted =
      counter_add z.total_free_pages z'.total_free_pages (page_count z) (page_count z') n h t
        (ap (λ x. x % 2 ^ 64) (plus_zero (page_count z') (page_count z + n) m));
}

-- A freed block is counted once, after everything that was deferred.
pub free_page_locked-IsCounted :
    (z : MobilityZone) (pfn order : ℕ)
    → order ≤ max_order
    → IsCounted z
    → IsCounted (free_page_locked z pfn order)
unfolding free_page_locked measure
free_page_locked-IsCounted z pfn order h c =
    let f = IsCounted-flush_deferred_frees z c in
    let m =
      buddy_merge_lem block_pages (flush_deferred_frees z) pfn order block_pages-Additive h
        f.sound in
    let t = buddy_merge-total (flush_deferred_frees z) pfn order in
    added (flush_deferred_frees z) (buddy_merge (flush_deferred_frees z) pfn order) (2 ^ order)
      f.counted t m.0 m.1

extracted-IsCounted :
    (z : MobilityZone) (requested : ℕ) (r : MobilityZone × Option ℕ)
    → IsCounted z
    → r.0.total_free_pages ≡ z.total_free_pages
    → Extracts block_pages z requested r
    → IsCounted (alloc_extracted r requested).0
unfolding alloc_extracted measure
extracted-IsCounted z requested (z', none) c t (e, empty) = subst (λ x. IsCounted x) (sym e) c
extracted-IsCounted z requested (z', some pfn) c t (s, m, st, o) = record {
  sound = IsSound-sub_free_pages z' (2 ^ requested) s;
  counted =
      counter_sub z.total_free_pages z'.total_free_pages (page_count z) (page_count z')
        (2 ^ requested) c.counted t m;
}

pub extract_block-total :
    (z : MobilityZone) (requested : ℕ)
    → (extract_block z requested).0.total_free_pages ≡ z.total_free_pages
unfolding extract_block mark_active pop_hot
extract_block-total z requested =
    elim (Option-cases (lowest_active (max_order + 1 - requested) z.active_orders requested)) [
      | inl e ↦ rw (e, extract_block) refl
      | inr (order, e) ↦ elim (List-cases (z.areas order)) [
        | inl n ↦ rw (e, extract_block, n) refl
        | inr (pfn, rest, n) ↦
            rw (e, extract_block, n)
              (split_down-total (order - requested) (pop_hot z order rest) pfn requested)
      ]
    ]

-- An allocation under the lock keeps the zone sound and its counter exact, whether it finds a
-- block or not.
pub alloc_pages_locked-IsCounted :
    (z : MobilityZone) (requested : ℕ)
    → requested ≤ max_order
    → IsCounted z
    → IsCounted (alloc_pages_locked z requested).0
unfolding alloc_pages_locked
alloc_pages_locked-IsCounted z requested h c =
    let f = IsCounted-flush_deferred_frees z c in
    extracted-IsCounted (flush_deferred_frees z) requested
      (extract_block (flush_deferred_frees z) requested) f
      (extract_block-total (flush_deferred_frees z) requested)
      (extract_block_lem block_pages (flush_deferred_frees z) requested block_pages-Additive h
        f.sound)
