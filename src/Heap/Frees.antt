-- ===== src/Heap/Frees.antt =====
-- kernel/src/memory/heap.cpp: the steps of `free` keep the invariant.
use erebus.Base.{
  ℕ, ◌<◌, ◌^◌, true, Bool-cases, some, ◌≡◌, ◌≢◌, refl, sym, subst, ◌∙◌, ◌⊎◌, inl, inr, arith,
}
use erebus.Base.Family.{put}
use erebus.Heap.{free_local, free_remote, after_free}
use erebus.Heap.Nodes.{remove_first}
use erebus.Heap.System.{System, publishing, task_after, occurs, free_local_step, free_remote_step}
use erebus.Heap.Places.{Place, is_listed, Status, full, published, owned, is_given, SlabInv, Inv}
use erebus.Heap.Lists.{put_id, occurs-le-length}
use erebus.Heap.Updates.{
  own_cpu, slab_at, update-Inv, stay-Inv, others_active, owned_alike, moved, cpu_like,
  node_elsewhere,
}
use erebus.Heap.Allocs.{active_slab, active_frozen}
use erebus.Heap.Freed.{
  local-Filled, in_use_freed, remote-Filled, Status-freed, Status-unfull, quiet_cpu,
  after_free-Quiet, full-publishes, put_hit, Full-cases,
}

module _ {node_of : ℕ → ℕ} {total : ℕ} {place : ℕ → Place} {y : System}
    (inv : Inv node_of total place y) (c s obj : ℕ) (pos : 0 < occurs obj (y.live s)) where
  pub give_back-Inv :
      (y.cache.cpus c).page ≡ some s → Inv node_of total place (free_local_step y c s obj)
  give_back-Inv at =
      let a = (inv.cpu c).page_active s at in
      let k = free_local (y.cache.cpus c) obj in
      moved (free_local_step y c s obj) _ (put_id y.cache.slabs s) refl refl (put_id y.tasks c) refl
        (put_id y.given s)
        (stay-Inv inv c s (place s) k (y.tasks c) (y.cache.slabs s) (remove_first obj (y.live s))
          (y.given s) (others_active inv c s (place s) k a)
          (active_slab inv c s k (y.cache.slabs s) (remove_first obj (y.live s)) a refl
            (active_frozen inv c s a) (local-Filled (y.cache.cpus c) pos))
          (cpu_like k refl refl refl (λ z. absurd (let w = at in cc)) (inv.cpu c)))

  pub live-given : y.given s ≡ true
  live-given = elim (Bool-cases (y.given s)) [
    | inl e ↦ e
    | inr e ↦
        absurd (
          let z = (inv.slab s).nothing e in
          let le = occurs-le-length obj (y.live s) in ground arith)
  ]

  -- The slab that the free is about, wherever it is.
  freed_slab :
      (p : Place)
      → is_given p ≡ true
      → Status
          (node_of s)
          p
          (y.cache.slabs s).frozen
          (free_remote (y.cache.slabs s) obj).in_use
          total
      → (y.cache.slabs s).on_node_list ≡ is_listed p
      → owned y.cache.cpus p ≡ owned y.cache.cpus (place s)
      → total < 2 ^ 15
      → SlabInv
          (node_of s)
          total
          (free_remote (y.cache.slabs s) obj)
          (remove_first obj (y.live s))
          (y.given s)
          p
          (owned (put y.cache.cpus c (y.cache.cpus c)) p)
  freed_slab p g st flag own small =
      rw (sym (owned_alike y.cache.cpus c (y.cache.cpus c) p refl), own)
        (record {
          here = live-given ∙ sym g;
          flag = flag;
          nothing = λ e. absurd (let z = live-given in cc);
          filled = λ e. remote-Filled small pos ((inv.slab s).filled e);
          status = st;
        })

  give_back_remote-Inv :
      total < 2 ^ 15 → place s ≢ full → Inv node_of total place (free_remote_step y c s obj)
  give_back_remote-Inv small ne =
      let old = inv.slab s in
      let sl = y.cache.slabs s in
      let g = live-given in
      let f = old.filled g in
      let t = task_after (after_free sl (free_remote sl obj)) s in
      let given = sym old.here ∙ g in
      let quiet = after_free-Quiet sl (free_remote sl obj) s (
        subst (λ n. (sl.frozen ≡ true) ⊎ (sl.in_use < n)) (sym f.size)
          (Status-unfull (node_of s) (place s) sl.frozen sl.in_use total ne given old.status)) in
      moved (free_remote_step y c s obj) _ refl (put_id y.cache.cpus c) refl refl refl
        (put_id y.given s)
        (stay-Inv inv c s (place s) (y.cache.cpus c) t (free_remote sl obj)
          (remove_first obj (y.live s)) (y.given s)
          (λ j d. owned_alike y.cache.cpus c (y.cache.cpus c) (place j) refl)
          (freed_slab (place s) given
            (Status-freed (node_of s) (place s) sl.frozen sl.in_use (free_remote sl obj).in_use
              total ne (omega (arith, in_use_freed obj small pos f)) old.status)
            old.flag refl small)
          (quiet_cpu t quiet (inv.cpu c)))

  give_back_full-Inv :
      total < 2 ^ 15
      → place s ≡ full
      → Inv node_of total (put place s (published c)) (free_remote_step y c s obj)
  give_back_full-Inv small e =
      let old = slab_at inv c s (place s) full e in
      let sl = y.cache.slabs s in
      let f = old.filled live-given in
      let (fr, all) = old.status in
      let now = in_use_freed obj small pos f in
      moved (free_remote_step y c s obj) _ refl (put_id y.cache.cpus c) refl
        (full-publishes sl obj y.tasks c s fr (all ∙ sym f.size)) refl (put_id y.given s)
        (update-Inv inv c s (published c) (y.cache.cpus c) (publishing s) (free_remote sl obj)
          (remove_first obj (y.live s)) (y.given s) y.cache.nodes (rw e tt) refl
          (λ j d. owned_alike y.cache.cpus c (y.cache.cpus c) (place j) refl)
          (freed_slab (published c) refl (fr, omega arith) old.flag (rw e refl) small)
          (own_cpu place s (published c) c (publishing s) (λ q. let w = sym e ∙ q in cc) (λ q. cc)
            (rw e refl) (λ j q. put_hit place s (published c) j (let w = q in cc))
            (λ j q. absurd (let w = q in cc)) (inv.cpu c))
          (λ n. node_elsewhere place s (published c) n (rw e refl) (inv.node n)))

  pub give_back_remote_Inv :
      total < 2 ^ 15 → (q : ℕ → Place) × Inv node_of total q (free_remote_step y c s obj)
  give_back_remote_Inv small = elim (Full-cases (place s)) [
    | inl e ↦ (put place s (published c), give_back_full-Inv small e)
    | inr ne ↦ (place, give_back_remote-Inv small ne)
  ]
