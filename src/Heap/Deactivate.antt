-- ===== src/Heap/Deactivate.antt =====
-- kernel/src/memory/heap.cpp: `deactivate_slab` keeps the invariant.
use erebus.Base.{
  ℕ, suc, ◌+◌, ◌%◌, ◌<◌, ◌≤◌, ◌^◌, true, false, ◌==◌, ltb, ltb→lt, not_ltb→le, if◌then◌else◌,
  Bool-cases, ==→eq, List, [], ◌∷◌, length, length-append, none, some, ◌≡◌, ◌≢◌, refl, sym, subst,
  ◌∙◌, inl, inr, arith,
}
use erebus.Base.Family.{put}
use erebus.Heap.{
  Slab, CpuCache, chain, left_in_use, to_cpu_partial, deactivated, released_cpu, keep_partial,
  after_deactivate, deactivate_slab, max_cpu_partial,
}
use erebus.Heap.System.{
  System, Task, idle, publishing, claiming, task_after, occurs, deactivate_step,
}
use erebus.Heap.Places.{
  Place, is_given, is_listed, listed_at, kept_at, Status, full, active, kept, published, owned,
  Filled, CpuInv, Inv,
}
use erebus.Heap.Lists.{put_id, occurs-append}
use erebus.Heap.Updates.{
  Mine, kept_stays, slab_at, update-Inv, others_active, moved, node_elsewhere,
}
use erebus.Heap.Freed.{put_hit}

-- What the CPU does not hand back was in use.
pub left_in_use_lem :
    {total : ℕ} {live : List ℕ} (k : CpuCache) (sl : Slab)
    → total < 2 ^ 15
    → Filled total sl live (chain k)
    → left_in_use k sl + length (chain k) ≡ sl.in_use
left_in_use_lem k sl small f = let a = f.sum in let b = f.counted in omega arith

deactivated-Filled :
    {total : ℕ} {live : List ℕ} (k : CpuCache) (sl : Slab)
    → total < 2 ^ 15
    → Filled total sl live (chain k)
    → Filled total (deactivated k sl) live []
deactivated-Filled k sl small f = record {
  once = λ i. omega (arith, occurs-append i (chain k) sl.remote, f.once i);
  sum = omega (arith, length-append (chain k) sl.remote, f.sum);
  counted =
      omega (arith, length-append (chain k) sl.remote, left_in_use_lem k sl small f, f.counted);
  size = f.size;
}

abbrev next_cpu : CpuCache → Slab → ℕ → CpuCache
next_cpu k sl s = if to_cpu_partial k sl then keep_partial (released_cpu k) s else released_cpu k

to_cpu_partial_lem :
    (k : CpuCache) (sl : Slab)
    → to_cpu_partial k sl ≡ true
    → (0 < left_in_use k sl) × (left_in_use k sl < sl.total) × (k.partial_count < max_cpu_partial)
to_cpu_partial_lem k sl e = (ground arith, ground arith, ground arith)

module _ {node_of : ℕ → ℕ} {total : ℕ} {place : ℕ → Place} {y : System}
    (inv : Inv node_of total place y) (c s : ℕ) (at : (y.cache.cpus c).page ≡ some s)
    (small : total < 2 ^ 15) where
  deactivate_to :
      (k : CpuCache) (p' : Place) (t : Task)
      → next_cpu (y.cache.cpus c) (y.cache.slabs s) s ≡ k
      → task_after (after_deactivate (y.cache.cpus c) (y.cache.slabs s)) s ≡ t
      → Mine c p'
      → is_given p' ≡ true
      → is_listed p' ≡ false
      → ((n : ℕ) → listed_at n p' ≡ 0)
      → ((cpus : ℕ → CpuCache) → owned cpus p' ≡ [])
      → Status
          (node_of s)
          p'
          (to_cpu_partial (y.cache.cpus c) (y.cache.slabs s))
          (left_in_use (y.cache.cpus c) (y.cache.slabs s))
          total
      → CpuInv (put place s p') c k t
      → Inv node_of total (put place s p') (deactivate_step y c s)
  unfolding deactivate_slab
  deactivate_to k p' t ek et mine given listed nowhere own st at_cpu =
      let a = (inv.cpu c).page_active s at in
      let old = slab_at inv c s (place s) (active c) a in
      let sl = deactivated (y.cache.cpus c) (y.cache.slabs s) in
      moved (deactivate_step y c s) _ refl (rw ek refl) refl (rw et refl) (put_id y.live s)
        (put_id y.given s)
        (update-Inv inv c s p' k t sl (y.live s) (y.given s) y.cache.nodes (rw a refl) mine
          (others_active inv c s p' k a)
          (rw (own (put y.cache.cpus c k)) (record {
            here = old.here ∙ sym given;
            flag = old.flag ∙ sym listed;
            nothing = λ g. absurd (let w = old.here in cc);
            filled =
                λ g. deactivated-Filled (y.cache.cpus c) (y.cache.slabs s) small (old.filled g);
            status = st;
          }))
          at_cpu (λ n. node_elsewhere place s p' n (rw a (sym (nowhere n))) (inv.node n)))

  -- The CPU afterwards.
  let_go :
      (k : CpuCache) (p' : Place) (t : Task)
      → p' ≢ active c
      → k.page ≡ none
      → chain k ≡ []
      → ((j : ℕ) → occurs j k.cpu_partial ≡ kept_at c (put place s p' j))
      → (k.partial_count ≡ length k.cpu_partial) × (k.partial_count ≤ max_cpu_partial)
      → ((j : ℕ) → t ≡ publishing j → put place s p' j ≡ published c)
      → ((j : ℕ) → t ≢ claiming j)
      → CpuInv (put place s p') c k t
  let_go k p' t ne none_at empty on_kept count to_publish not_claiming = record {
    page_active = λ j e. absurd (let w = none_at in cc);
    active_page = λ j e. elim (Bool-cases (s == j)) [
      | inl q ↦ absurd (ne (rw q at e))
      | inr q ↦
          let w = (inv.cpu c).active_page j (rw q at e) in
          let same : s ≡ j = cc in absurd (ground arith)
    ];
    no_page = λ e. empty;
    on_kept = on_kept;
    kept_count = count;
    to_publish = to_publish;
    to_claim = λ j e. absurd (not_claiming j e);
  }

  -- The lists of a CPU are those it had, if the slab does not go on one.
  old_kept :
      (p' : Place)
      → kept_at c p' ≡ 0
      → (j : ℕ) → occurs j (y.cache.cpus c).cpu_partial ≡ kept_at c (put place s p' j)
  old_kept p' z =
      kept_stays place s p' c (y.cache.cpus c).cpu_partial
        (rw ((inv.cpu c).page_active s at) (sym z)) (inv.cpu c).on_kept

  now_kept :
      (j : ℕ) → occurs j (s ∷ (y.cache.cpus c).cpu_partial) ≡ kept_at c (put place s (kept c) j)
  now_kept j =
      let a = (inv.cpu c).page_active s at in
      let here : occurs s (y.cache.cpus c).cpu_partial ≡ 0 = (inv.cpu c).on_kept s ∙ rw a refl in
      elim (Bool-cases (s == j)) [
        | inl q ↦
            subst
              (λ i.
                occurs i (s ∷ (y.cache.cpus c).cpu_partial) ≡ kept_at c (put place s (kept c) i))
              (==→eq s j q) (ground arith)
        | inr q ↦ rw q (ground (arith, (inv.cpu c).on_kept j))
      ]

  kept_more :
      (y.cache.cpus c).partial_count < max_cpu_partial
      → let n = ((y.cache.cpus c).partial_count + 1) % 2 ^ 8 in
        (n ≡ suc (length (y.cache.cpus c).cpu_partial)) × (n ≤ max_cpu_partial)
  kept_more room = let (e, le) = (inv.cpu c).kept_count in (omega arith, omega arith)

  active-Filled : Filled total (y.cache.slabs s) (y.live s) (chain (y.cache.cpus c))
  active-Filled =
      let a = (inv.cpu c).page_active s at in
      let old = slab_at inv c s (place s) (active c) a in old.filled old.here

  deactivate_kept :
      to_cpu_partial (y.cache.cpus c) (y.cache.slabs s) ≡ true
      → Inv node_of total (put place s (kept c)) (deactivate_step y c s)
  unfolding after_deactivate
  deactivate_kept e =
      let filled = active-Filled in
      let (pos, lt, room) = to_cpu_partial_lem (y.cache.cpus c) (y.cache.slabs s) e in
      let k = keep_partial (released_cpu (y.cache.cpus c)) s in
      deactivate_to k (kept c) idle (rw e refl) (rw (after_deactivate, e) refl) refl refl refl
        (λ n. refl) (λ cpus. refl)
        (rw e
          (refl, subst (λ n. left_in_use (y.cache.cpus c) (y.cache.slabs s) < n) filled.size lt))
        (let_go k (kept c) idle (λ q. cc) refl refl now_kept (kept_more room)
          (λ j q. absurd (let w = q in cc)) (λ j q. cc))

  deactivate_published :
      to_cpu_partial (y.cache.cpus c) (y.cache.slabs s) ≡ false
      → ltb (left_in_use (y.cache.cpus c) (y.cache.slabs s)) (y.cache.slabs s).total ≡ true
      → Inv node_of total (put place s (published c)) (deactivate_step y c s)
  unfolding after_deactivate
  deactivate_published e f =
      let filled = active-Filled in
      let lt = ltb→lt (left_in_use (y.cache.cpus c) (y.cache.slabs s)) (y.cache.slabs s).total f in
      deactivate_to (released_cpu (y.cache.cpus c)) (published c) (publishing s) (rw e refl)
        (rw (after_deactivate, e, f) refl) refl refl refl (λ n. refl) (λ cpus. refl)
        (rw e
          (refl, subst (λ n. left_in_use (y.cache.cpus c) (y.cache.slabs s) < n) filled.size lt))
        (let_go (released_cpu (y.cache.cpus c)) (published c) (publishing s) (λ q. cc) refl refl
          (old_kept (published c) refl) (inv.cpu c).kept_count
          (λ j q. put_hit place s (published c) j (let w = q in cc)) (λ j q. cc))

  deactivate_full :
      to_cpu_partial (y.cache.cpus c) (y.cache.slabs s) ≡ false
      → ltb (left_in_use (y.cache.cpus c) (y.cache.slabs s)) (y.cache.slabs s).total ≡ false
      → Inv node_of total (put place s full) (deactivate_step y c s)
  unfolding after_deactivate
  deactivate_full e f =
      let filled = active-Filled in
      let le =
        not_ltb→le (left_in_use (y.cache.cpus c) (y.cache.slabs s)) (y.cache.slabs s).total f in
      let sum = left_in_use_lem (y.cache.cpus c) (y.cache.slabs s) small filled in
      deactivate_to (released_cpu (y.cache.cpus c)) full idle (rw e refl)
        (rw (after_deactivate, e, f) refl) tt refl refl (λ n. refl) (λ cpus. refl)
        (rw e (refl, omega (arith, filled.counted, filled.size)))
        (let_go (released_cpu (y.cache.cpus c)) full idle (λ q. cc) refl refl (old_kept full refl)
          (inv.cpu c).kept_count (λ j q. absurd (let w = q in cc)) (λ j q. cc))

  pub deactivate-Inv : (q : ℕ → Place) × Inv node_of total q (deactivate_step y c s)
  deactivate-Inv = elim (Bool-cases (to_cpu_partial (y.cache.cpus c) (y.cache.slabs s))) [
    | inl e ↦ (put place s (kept c), deactivate_kept e)
    | inr e ↦
        elim (Bool-cases
          (ltb (left_in_use (y.cache.cpus c) (y.cache.slabs s)) (y.cache.slabs s).total)) [
            | inl f ↦ (put place s (published c), deactivate_published e f)
            | inr f ↦ (put place s full, deactivate_full e f)
          ]
  ]
