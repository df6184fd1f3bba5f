-- ===== src/Heap/Outcomes.antt =====
-- kernel/src/memory/heap.cpp: what `alloc` and `free` come to.
use erebus.Base.{
  ℕ, ◌<◌, ◌^◌, Bool, true, false, Bool-cases, List, [], ◌∷◌, Option, none, some, ◌≡◌, ◌≢◌, refl,
  sym, ap, subst, ◌∙◌, inl, inr, arith, Option-cases, ==→eq, ==_self,
}
use erebus.Base.Family.{put}
use erebus.Heap.{
  Slab, CpuCache, KmemCache, put_cpu, alloc_local, claim_remote_objects, After, done, publishes,
  discards, after_free, free_remote, after_deactivate, deactivate_slab, to_cpu_partial,
}
use erebus.Heap.Nodes.{
  pop_from_node_partial, publish_partial, publish_releases, remove_first, discard_if_empty,
  discard_releases,
}
use erebus.Heap.System.{
  System, idle, publishing, discarding, claiming, task_after, occurs, hand_out, claim_step,
  claim_partial_step, deactivate_step, publish_step, discard_step, pop_kept_step, pop_node_step,
  fresh_step, free_remote_step, allocate, claim, deactivate, publish, discard, pop_kept, pop_node,
  claim_partial, fresh, give_back, give_back_remote, Reach, later,
}
use erebus.Heap.Lists.{put_same}
use erebus.Heap.Taken.{claimed_cpu}
use erebus.Heap.Safety.{live-IsUnique, popped-claims, alloc_local_idle}
use erebus.Heap.Calls.{
  Outcome, obtained, out_of_memory, fatal, is_page, settle, take_fresh, take_popped, take_node,
  take_partial, take_new, claim_active, refill, take_local, alloc, free, Allocated,
}

-- What a CPU has done once it has published or discarded the slab that it let go of.
record Finished (node_of : ℕ → ℕ) (total : ℕ) (y : System) (c : ℕ) (z : System) : Type 0 where
  reached : Reach node_of total z
  idle_again : z.tasks c ≡ idle
  same_live : z.live ≡ y.live
  same_page : (z.cache.cpus c).page ≡ (y.cache.cpus c).page

deactivated_page : (y : System) (c s : ℕ) → ((deactivate_step y c s).cache.cpus c).page ≡ none
unfolding deactivate_slab
deactivated_page y c s = elim (Bool-cases (to_cpu_partial (y.cache.cpus c) (y.cache.slabs s))) [
  | inl e ↦ rw (deactivate_slab, e, ==_self c) refl
  | inr e ↦ rw (deactivate_slab, e, ==_self c) refl
]

module _ {node_of : ℕ → ℕ} {total : ℕ} (y : System) (c s : ℕ) where
  publish-Finished :
      Reach node_of total y
      → y.tasks c ≡ publishing s
      → Finished node_of total y c (publish_step node_of y c s)
  unfolding publish_partial
  publish-Finished r t = elim (Bool-cases (publish_releases node_of y.cache s)) [
    | inl e ↦ record {
      reached = later r (publish t);
      idle_again = rw e (put_same y.tasks c idle);
      same_live = rw e refl;
      same_page = rw (publish_partial, e) refl;
    }
    | inr e ↦ record {
      reached = later r (publish t);
      idle_again = rw e (put_same y.tasks c idle);
      same_live = rw e refl;
      same_page = rw (publish_partial, e) refl;
    }
  ]

  discard-Finished :
      Reach node_of total y
      → y.tasks c ≡ discarding s
      → Finished node_of total y c (discard_step node_of y c s)
  unfolding discard_if_empty
  discard-Finished r t = elim (Bool-cases (discard_releases node_of y.cache s)) [
    | inl e ↦ record {
      reached = later r (discard t);
      idle_again = rw e (put_same y.tasks c idle);
      same_live = rw e refl;
      same_page = rw (discard_if_empty, e) refl;
    }
    | inr e ↦ record {
      reached = later r (discard t);
      idle_again = rw e (put_same y.tasks c idle);
      same_live = rw e refl;
      same_page = rw (discard_if_empty, e) refl;
    }
  ]

  settle-Finished :
      (node : ℕ) (pages : (ℕ → Bool) → Option ℕ) (a : After)
      → Reach node_of total y
      → y.tasks c ≡ task_after a s
      → Finished node_of total y c (settle node_of total node pages y c)
  settle-Finished node pages done r t =
      rw t (record { reached = r; idle_again = t; same_live = refl; same_page = refl })
  settle-Finished node pages publishes r t = rw t (publish-Finished r t)
  settle-Finished node pages discards r t = rw t (discard-Finished r t)

is_page-some : (o : Option ℕ) (s : ℕ) → is_page o s ≡ true → o ≡ some s
is_page-some none s e = absurd (let w = e in cc)
is_page-some (some p) s e = ap some (==→eq p s e)

is_page_other : (o : Option ℕ) (s : ℕ) → is_page o s ≡ false → o ≢ some s
is_page_other none s e q = cc
is_page_other (some p) s e q = absurd (ground arith)

module _ (node_of : ℕ → ℕ) (total node : ℕ) (pages : (ℕ → Bool) → Option ℕ) (pos : 0 < total)
    (small : total < 2 ^ 15)
    (new_block : (g : ℕ → Bool) (s : ℕ) → pages g ≡ some s → g s ≡ false) where
  -- An object that an allocation has put among those of callers was not there.
  obtained-Allocated :
      (y z : System) (c s obj : ℕ)
      → Reach node_of total z
      → z.live ≡ put y.live s (obj ∷ y.live s)
      → z.tasks c ≡ idle
      → Allocated node_of total node pages y c (obtained s obj z)
  unfolding Allocated
  obtained-Allocated y z c s obj r e t =
      let at : z.live s ≡ obj ∷ y.live s = ap (λ f. f s) e ∙ put_same y.live s (obj ∷ y.live s) in
      let ((one, lt), rest) =
        live-IsUnique node_of total pos small s obj r (rw at (ground arith)) in
      let now = subst (λ xs. occurs obj xs ≡ 1) at one in (r, (ground arith, (e, t)))

  take_fresh-Allocated :
      (y : System) (c : ℕ) (o : Option ℕ)
      → Reach node_of total y
      → y.tasks c ≡ idle
      → (y.cache.cpus c).page ≡ none
      → pages y.given ≡ o
      → Allocated node_of total node pages y c (take_fresh node_of total node pages y c o)
  unfolding Allocated
  take_fresh-Allocated y c none r t at e = (r, (e, (refl, t)))
  take_fresh-Allocated y c (some s) r t at e =
      obtained-Allocated y (fresh_step total y c s) c s 0
        (later r (fresh t at (new_block y.given s e))) refl t

  take_popped-Allocated :
      (y : System) (c s : ℕ)
      → Reach node_of total y
      → y.tasks c ≡ claiming s
      → Allocated node_of total node pages y c (take_popped node_of total node pages y c s)
  take_popped-Allocated y c s r t =
      let (x, (rest, (e, new))) = popped-claims node_of total pos small c s r t in
      rw e (
        obtained-Allocated y (claim_partial_step y c s x (claimed_cpu (y.cache.cpus c) rest) _) c s
          x (later r (claim_partial t e)) refl (put_same y.tasks c idle))

  same_live-Allocated :
      (y z : System) (c : ℕ) (o : Outcome)
      → z.live ≡ y.live
      → Allocated node_of total node pages z c o
      → Allocated node_of total node pages y c o
  unfolding Allocated
  same_live-Allocated y z c (obtained s obj x) e h = rw (sym e) h
  same_live-Allocated y z c (out_of_memory x) e h = rw (sym e) h
  same_live-Allocated y z c fatal e h = h

  take_node-Allocated :
      (y : System) (c : ℕ) (o : Option (ℕ × KmemCache))
      → Reach node_of total y
      → y.tasks c ≡ idle
      → (y.cache.cpus c).page ≡ none
      → pop_from_node_partial y.cache node ≡ o
      → Allocated node_of total node pages y c (take_node node_of total node pages y c o)
  take_node-Allocated y c none r t at e = take_fresh-Allocated y c (pages y.given) r t at refl
  take_node-Allocated y c (some (s, m)) r t at e =
      let z = pop_node_step y c s m in
      same_live-Allocated y z c (take_popped node_of total node pages z c s) refl (
        take_popped-Allocated z c s (later r (pop_node node t at e))
          (put_same y.tasks c (claiming s)))

  take_partial-Allocated :
      (y : System) (c : ℕ) (xs : List ℕ)
      → Reach node_of total y
      → y.tasks c ≡ idle
      → (y.cache.cpus c).page ≡ none
      → (y.cache.cpus c).cpu_partial ≡ xs
      → Allocated node_of total node pages y c (take_partial node_of total node pages y c xs)
  take_partial-Allocated y c [] r t at e =
      take_node-Allocated y c (pop_from_node_partial y.cache node) r t at refl
  take_partial-Allocated y c (s ∷ rest) r t at e =
      let z = pop_kept_step y c s rest in
      same_live-Allocated y z c (take_popped node_of total node pages z c s) refl
        (take_popped-Allocated z c s (later r (pop_kept t at e)) (put_same y.tasks c (claiming s)))

  take_new-Allocated :
      (y : System) (c : ℕ)
      → Reach node_of total y
      → y.tasks c ≡ idle
      → (y.cache.cpus c).page ≡ none
      → Allocated node_of total node pages y c (take_new node_of total node pages y c)
  take_new-Allocated y c r t at =
      take_partial-Allocated y c (y.cache.cpus c).cpu_partial r t at refl

  claim_active-Allocated :
      (y : System) (c s : ℕ) (o : Option (ℕ × CpuCache × Slab))
      → Reach node_of total y
      → y.tasks c ≡ idle
      → (y.cache.cpus c).page ≡ some s
      → alloc_local (y.cache.cpus c) ≡ none
      → claim_remote_objects (y.cache.cpus c) (y.cache.slabs s) ≡ o
      → Allocated node_of total node pages y c (claim_active node_of total node pages y c s o)
  claim_active-Allocated y c s none r t at fast e =
      let z = deactivate_step y c s in
      let left = after_deactivate (y.cache.cpus c) (y.cache.slabs s) in
      let f =
        settle-Finished z c s node pages left (later r (deactivate t at))
          (put_same y.tasks c (task_after left s)) in
      let w = settle node_of total node pages z c in
      same_live-Allocated y w c (take_new node_of total node pages w c) f.same_live
        (take_new-Allocated w c f.reached f.idle_again (f.same_page ∙ deactivated_page y c s))
  claim_active-Allocated y c s (some (obj, k, sl)) r t at fast e =
      obtained-Allocated y (claim_step y c s obj k sl) c s obj (later r (claim t at fast e)) refl t

  refill-Allocated :
      (y : System) (c : ℕ)
      → Reach node_of total y
      → y.tasks c ≡ idle
      → alloc_local (y.cache.cpus c) ≡ none
      → Allocated node_of total node pages y c (refill node_of total node pages y c)
  unfolding refill
  refill-Allocated y c r t fast = elim (Option-cases (y.cache.cpus c).page) [
    | inl e ↦ rw (refill, e) (take_new-Allocated y c r t e)
    | inr (s, e) ↦
        rw (refill, e)
          (claim_active-Allocated y c s (claim_remote_objects (y.cache.cpus c) (y.cache.slabs s)) r
            t e fast refl)
  ]

  -- With slabs of 1 up to 2 ^ 15 - 1 objects, from every state that is reached, if the page
  -- allocator gives out no block that the cache has: `alloc` on an idle CPU does not come to a
  -- fatal error. It returns an object that callers did not hold and that they hold afterwards, with
  -- nothing else handed out or taken back, or it has no memory because the page allocator had no
  -- block; and the state that it leaves is one that is reached, with the CPU idle.
  pub alloc-Allocated :
      (y : System) (c : ℕ)
      → Reach node_of total y
      → y.tasks c ≡ idle
      → Allocated node_of total node pages y c (alloc node_of total node pages y c)
  unfolding alloc refill
  alloc-Allocated y c r t = elim (Option-cases (alloc_local (y.cache.cpus c))) [
    | inl e ↦ rw (alloc, e) (refill-Allocated y c r t e)
    | inr ((obj, k), e) ↦ rw (alloc, e) (take_local-Allocated obj k (y.cache.cpus c).page refl e)
  ]
    where
      take_local-Allocated :
          (obj : ℕ) (k : CpuCache) (o : Option ℕ)
          → (y.cache.cpus c).page ≡ o
          → alloc_local (y.cache.cpus c) ≡ some (obj, k)
          → Allocated node_of total node pages y c (take_local node_of total node pages y c obj k o)
      take_local-Allocated obj k none at e =
          absurd (let w = alloc_local_idle node_of total pos small c r at in cc)
      take_local-Allocated obj k (some s) at e =
          obtained-Allocated y (hand_out y s obj (put_cpu y.cache c k)) c s obj
            (later r (allocate t at e)) refl t

  -- With slabs of 1 up to 2 ^ 15 - 1 objects and a page allocator that gives out no block that the
  -- cache has, from every state that is reached: `free` on an idle CPU of an object that callers
  -- hold takes one back, and no other, and the state that it leaves is one that is reached, with
  -- the CPU idle.
  pub free-Reach :
      (y : System) (c s obj : ℕ)
      → Reach node_of total y
      → y.tasks c ≡ idle
      → 0 < occurs obj (y.live s)
      → let z = free node_of total node pages y c s obj in
        Reach node_of total z
        × ((z.live ≡ put y.live s (remove_first obj (y.live s))) × (z.tasks c ≡ idle))
  unfolding free
  free-Reach y c s obj r t h = elim (Bool-cases (is_page (y.cache.cpus c).page s)) [
    | inl e ↦
        rw (free, e)
          (later r (give_back obj t (is_page-some (y.cache.cpus c).page s e) h), (refl, t))
    | inr e ↦
        let z = free_remote_step y c s obj in
        let left = after_free (y.cache.slabs s) (free_remote (y.cache.slabs s) obj) in
        let f =
          settle-Finished z c s node pages left
            (later r (give_back_remote obj t (is_page_other (y.cache.cpus c).page s e) h))
            (put_same y.tasks c (task_after left s)) in
        rw (free, e) (f.reached, (f.same_live, f.idle_again))
  ]
