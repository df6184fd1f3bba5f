-- ===== src/Heap/Freed.antt =====
-- kernel/src/memory/heap.cpp: objects that callers give back.
use erebus.Base.{
  ℕ, ◌+◌, ◌<◌, ◌^◌, Bool, true, false, ◌==◌, Bool-cases, eq→==, ne_==, List, ◌≡◌, ◌≢◌, refl, ◌⊎◌,
  inl, inr, arith,
}
use erebus.Base.Family.{put}
use erebus.Heap.{Slab, CpuCache, chain, free_local, free_remote, after_free}
use erebus.Heap.Nodes.{remove_first}
use erebus.Heap.System.{Task, publishing, claiming, task_after, occurs}
use erebus.Heap.Places.{
  Place, Status, in_pmm, full, active, kept, published, held, listed, is_given, Filled, CpuInv,
}
use erebus.Heap.Lists.{occurs-remove_first, length-remove_first, occurs-le-length}

-- An object goes from its caller to the list of the CPU, and to the remote list.
pub local-Filled :
    {total : ℕ} {sl : Slab} {live : List ℕ} {obj : ℕ} (k : CpuCache)
    → 0 < occurs obj live
    → Filled total sl live (chain k)
    → Filled total sl (remove_first obj live) (chain (free_local k obj))
local-Filled {live = live} {obj = obj} k pos f = record {
  once = λ i. ground (arith, f.once i, occurs-remove_first obj i live pos);
  sum = omega (arith, f.sum, length-remove_first obj live pos);
  counted = f.counted;
  size = f.size;
}

-- A slab that has a live object has one more in use than after it is freed.
pub in_use_freed :
    {total : ℕ} {sl : Slab} {live own : List ℕ} (obj : ℕ)
    → total < 2 ^ 15
    → 0 < occurs obj live
    → Filled total sl live own
    → (free_remote sl obj).in_use + 1 ≡ sl.in_use
in_use_freed {sl = sl} {live = live} obj small pos f =
    omega (arith, occurs-le-length obj live, f.sum, f.counted)

pub remote-Filled :
    {total : ℕ} {sl : Slab} {live own : List ℕ} {obj : ℕ}
    → total < 2 ^ 15
    → 0 < occurs obj live
    → Filled total sl live own
    → Filled total (free_remote sl obj) (remove_first obj live) own
remote-Filled {sl = sl} {live = live} {obj = obj} small pos f = record {
  once = λ i. ground (arith, f.once i, occurs-remove_first obj i live pos);
  sum = omega (arith, f.sum, length-remove_first obj live pos);
  counted = omega (arith, in_use_freed obj small pos f, f.counted);
  size = f.size;
}

-- A free leaves every slab where it is, but for the full ones.
pub Status-freed :
    (node : ℕ) (p : Place) (frozen : Bool) (u u' total : ℕ)
    → p ≢ full
    → u' < u
    → Status node p frozen u total
    → Status node p frozen u' total
Status-freed node in_pmm frozen u u' total ne lt st = tt
Status-freed node full frozen u u' total ne lt st = absurd (ne refl)
Status-freed node (active c) frozen u u' total ne lt st = st
Status-freed node (kept c) frozen u u' total ne lt (a, b) = (a, omega arith)
Status-freed node (published c) frozen u u' total ne lt (a, b) = (a, omega arith)
Status-freed node (held c) frozen u u' total ne lt st = omega arith
Status-freed node (listed n) frozen u u' total ne lt (a, (b, d)) = (a, (omega arith, d))

-- Only a full slab is published after a free.
pub Status-unfull :
    (node : ℕ) (p : Place) (frozen : Bool) (u total : ℕ)
    → p ≢ full
    → is_given p ≡ true
    → Status node p frozen u total
    → (frozen ≡ true) ⊎ (u < total)
Status-unfull node in_pmm frozen u total ne g st = absurd (let z = g in cc)
Status-unfull node full frozen u total ne g st = absurd (ne refl)
Status-unfull node (active c) frozen u total ne g st = inl st
Status-unfull node (kept c) frozen u total ne g (a, b) = inl a
Status-unfull node (published c) frozen u total ne g (a, b) = inr b
Status-unfull node (held c) frozen u total ne g st = inr st
Status-unfull node (listed n) frozen u total ne g (a, (b, d)) = inr b

abbrev pub Quiet : Task → Type 0
Quiet t = ((j : ℕ) → t ≢ publishing j) × ((j : ℕ) → t ≢ claiming j)

pub quiet_cpu :
    {place : ℕ → Place} {c : ℕ} {k : CpuCache} {t : Task} (t' : Task)
    → Quiet t'
    → CpuInv place c k t
    → CpuInv place c k t'
quiet_cpu t' q inv = record {
  page_active = inv.page_active;
  active_page = inv.active_page;
  no_page = inv.no_page;
  on_kept = inv.on_kept;
  kept_count = inv.kept_count;
  to_publish = λ j e. absurd (q.0 j e);
  to_claim = λ j e. absurd (q.1 j e);
}

pub after_free-Quiet :
    (old new : Slab) (s : ℕ)
    → (new.frozen ≡ true) ⊎ (old.in_use < old.total)
    → Quiet (task_after (after_free old new) s)
unfolding after_free
after_free-Quiet old new s (inl e) = rw (after_free, e) (λ j q. cc, λ j q. cc)
after_free-Quiet old new s (inr lt) = elim (Bool-cases new.frozen) [
  | inl e ↦ rw (after_free, e) (λ j q. cc, λ j q. cc)
  | inr e ↦ elim (Bool-cases (new.in_use == 0)) [
    | inl z ↦
        rw (after_free, e, ne_== old.in_use old.total (λ q. omega arith), z) (λ j q. cc, λ j q. cc)
    | inr z ↦
        rw (after_free, e, ne_== old.in_use old.total (λ q. omega arith), z) (λ j q. cc, λ j q. cc)
  ]
]

-- The first free of a full slab publishes it.
pub full-publishes :
    (sl : Slab) (obj : ℕ) (tasks : ℕ → Task) (c s : ℕ)
    → sl.frozen ≡ false
    → sl.in_use ≡ sl.total
    → put tasks c (task_after (after_free sl (free_remote sl obj)) s) ≡ put tasks c (publishing s)
unfolding after_free
full-publishes sl obj tasks c s e f = rw (after_free, e, eq→== sl.in_use sl.total f) refl

pub put_hit {ℓ} : {A : Type ℓ} (f : ℕ → A) (s : ℕ) (a : A) (j : ℕ) → s ≡ j → put f s a j ≡ a
put_hit f s a j e = ground arith

pub Full-cases : (p : Place) → (p ≡ full) ⊎ (p ≢ full)
Full-cases full = inl refl
Full-cases in_pmm = inr λ q. cc
Full-cases (active c) = inr λ q. cc
Full-cases (kept c) = inr λ q. cc
Full-cases (published c) = inr λ q. cc
Full-cases (held c) = inr λ q. cc
Full-cases (listed n) = inr λ q. cc
