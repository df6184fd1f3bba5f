-- ===== src/Heap/Allocs.antt =====
-- kernel/src/memory/heap.cpp: the steps of `alloc` and `refill` that hand out an object keep the
-- invariant.
use erebus.Base.{
  ◌==◌, ==→eq, ℕ, ◌<◌, true, false, Bool-cases, List, [], ◌∷◌, none, some, ◌≡◌, refl, sym, subst,
  ◌∙◌, inl, inr,
}
use erebus.Base.Family.{put}
use erebus.Heap.{Slab, CpuCache, put_cpu, chain, claimed, new_slab, start_slab, start_partial}
use erebus.Heap.System.{
  System, idle, claiming, occurs, hand_out, claim_step, claim_partial_step, fresh_step,
}
use erebus.Heap.Places.{
  Place, Status, in_pmm, kept_at, active, held, owned, Filled, SlabInv, CpuInv, Inv,
}
use erebus.Heap.Lists.{put_id, put_at, put_same}
use erebus.Heap.Updates.{
  slab_at, update-Inv, stay-Inv, others_active, others_none, refilled, moved, cpu_like,
  node_elsewhere,
}
use erebus.Heap.Taken.{
  Took, claimed_cpu, take_first, claim_all, claim-Filled, given_place, fresh-Filled,
}

module _ {node_of : ℕ → ℕ} {total : ℕ} {place : ℕ → Place} {y : System}
    (inv : Inv node_of total place y) (c s : ℕ) where
  active_given : place s ≡ active c → y.given s ≡ true
  active_given e = (inv.slab s).here ∙ rw e refl

  -- The active slab of the CPU, after a step that moves objects between it and its callers.
  pub active_slab :
      (k : CpuCache) (sl : Slab) (live : List ℕ)
      → place s ≡ active c
      → (y.cache.slabs s).on_node_list ≡ sl.on_node_list
      → sl.frozen ≡ true
      → (Filled total (y.cache.slabs s) (y.live s) (chain (y.cache.cpus c))
          → Filled total sl live (chain k))
      → SlabInv
          (node_of s)
          total
          sl
          live
          (y.given s)
          (place s)
          (owned (put y.cache.cpus c k) (place s))
  active_slab k sl live e flag fr fill =
      let old = slab_at inv c s (place s) (active c) e in
      rw (e, put_same y.cache.cpus c k) (refilled old (active_given e) flag fill fr)

  pub active_frozen : place s ≡ active c → (y.cache.slabs s).frozen ≡ true
  active_frozen e =
      subst (λ p. Status (node_of s) p (y.cache.slabs s).frozen (y.cache.slabs s).in_use total) e
        (inv.slab s).status

  pub allocate-Inv :
      (obj : ℕ) (k : CpuCache)
      → (y.cache.cpus c).page ≡ some s
      → Took (y.cache.cpus c) obj k
      → Inv node_of total place (hand_out y s obj (put_cpu y.cache c k))
  allocate-Inv obj k at took =
      let e = (inv.cpu c).page_active s at in
      moved (hand_out y s obj (put_cpu y.cache c k)) _ (put_id y.cache.slabs s) refl refl
        (put_id y.tasks c) refl (put_id y.given s)
        (stay-Inv inv c s (place s) k (y.tasks c) (y.cache.slabs s) (obj ∷ y.live s) (y.given s)
          (others_active inv c s (place s) k e)
          (active_slab k (y.cache.slabs s) (obj ∷ y.live s) e refl (active_frozen e)
            (take_first took.first))
          (cpu_like k took.page took.kept took.count (λ z. absurd (let w = took.page in cc))
            (inv.cpu c)))

  pub claim-Inv :
      (obj : ℕ) (rest : List ℕ)
      → (y.cache.cpus c).page ≡ some s
      → (y.cache.slabs s).remote ≡ obj ∷ rest
      → chain (y.cache.cpus c) ≡ []
      → Inv node_of total place
          (claim_step y c s obj (claimed_cpu (y.cache.cpus c) rest) (claimed (y.cache.slabs s)))
  claim-Inv obj rest at e f =
      let a = (inv.cpu c).page_active s at in
      let k = claimed_cpu (y.cache.cpus c) rest in
      let sl = claimed (y.cache.slabs s) in
      moved (claim_step y c s obj k sl) _ refl refl refl (put_id y.tasks c) refl (put_id y.given s)
        (stay-Inv inv c s (place s) k (y.tasks c) sl (obj ∷ y.live s) (y.given s)
          (others_active inv c s (place s) k a)
          (active_slab k sl (obj ∷ y.live s) a refl refl (claim-Filled (y.cache.cpus c) e f))
          (cpu_like k refl refl refl (λ z. absurd (let w = at in cc)) (inv.cpu c)))

  -- A CPU without an active slab gets one that was on no list.
  activated :
      (k : CpuCache)
      → (y.cache.cpus c).page ≡ none
      → kept_at c (place s) ≡ 0
      → k.page ≡ some s
      → (y.cache.cpus c).cpu_partial ≡ k.cpu_partial
      → (y.cache.cpus c).partial_count ≡ k.partial_count
      → CpuInv (put place s (active c)) c k idle
  activated k z kz at kept count =
      let old = inv.cpu c in
      record {
        page_active = λ j e.
            let same : s ≡ j = cc in
            subst (λ i. put place s (active c) i ≡ active c) same (put_same place s (active c));
        active_page = λ j e. elim (Bool-cases (s == j)) [
          | inl q ↦ subst (λ i. k.page ≡ some i) (==→eq s j q) at
          | inr q ↦ absurd (let w = old.active_page j (rw q at e) in cc)
        ];
        no_page = λ e. absurd (let w = at in cc);
        on_kept = λ j. elim (Bool-cases (s == j)) [
          | inl q ↦
              rw (q, sym kept)
                (subst (λ i. occurs i (y.cache.cpus c).cpu_partial ≡ 0) (==→eq s j q)
                  (old.on_kept s ∙ kz))
          | inr q ↦ rw (q, sym kept) (old.on_kept j)
        ];
        kept_count = rw (sym kept, sym count) old.kept_count;
        to_publish = λ j e. absurd (let w = e in cc);
        to_claim = λ j e. absurd (let w = e in cc);
      }

  pub claim_partial-Inv :
      (obj : ℕ) (rest : List ℕ)
      → y.tasks c ≡ claiming s
      → (y.cache.slabs s).remote ≡ obj ∷ rest
      → Inv node_of total (put place s (active c)) (
          claim_partial_step y c s obj
            (claimed_cpu (y.cache.cpus c) rest)
            (claimed (y.cache.slabs s)))
  claim_partial-Inv obj rest t e =
      let (h, z) = (inv.cpu c).to_claim s t in
      let old = slab_at inv c s (place s) (held c) h in
      let k = start_partial (claimed_cpu (y.cache.cpus c) rest) s in
      let sl = claimed (y.cache.slabs s) in
      moved (claim_partial_step y c s obj (claimed_cpu (y.cache.cpus c) rest) sl) _ refl refl refl
        refl refl (put_id y.given s)
        (update-Inv inv c s (active c) k idle sl (obj ∷ y.live s) (y.given s) y.cache.nodes
          (rw h refl) refl (others_none inv c s (place s) k z)
          (rw (put_same y.cache.cpus c k) (record {
            here = old.here;
            flag = old.flag;
            nothing = λ g. absurd (let w = old.here in cc);
            filled = λ g. claim_all e refl (old.filled g);
            status = refl;
          }))
          (activated k z (rw h refl) refl refl refl)
          (λ n. node_elsewhere place s (active c) n (rw h refl) (inv.node n)))

  pub fresh-Inv :
      y.tasks c ≡ idle
      → (y.cache.cpus c).page ≡ none
      → y.given s ≡ false
      → 0 < total
      → Inv node_of total (put place s (active c)) (fresh_step total y c s)
  fresh-Inv t z g pos =
      let h = given_place (place s) (sym (inv.slab s).here ∙ g) in
      let old = slab_at inv c s (place s) in_pmm h in
      let k = start_slab (y.cache.cpus c) s total in
      moved (fresh_step total y c s) _ refl refl refl (put_at y.tasks c t) refl refl (
        update-Inv inv c s (active c) k idle (new_slab total) (0 ∷ y.live s) true y.cache.nodes
          (rw h tt) refl (others_none inv c s (place s) k z)
          (rw (put_same y.cache.cpus c k) (record {
            here = refl;
            flag = refl;
            nothing = λ q. absurd (let w = q in cc);
            filled = λ q. fresh-Filled total (y.live s) pos (old.nothing g);
            status = refl;
          }))
          (activated k z (rw h refl) refl refl refl)
          (λ n. node_elsewhere place s (active c) n (rw h refl) (inv.node n)))
