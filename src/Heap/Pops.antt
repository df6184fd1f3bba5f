-- ===== src/Heap/Pops.antt =====
-- kernel/src/memory/heap.cpp: a CPU that takes a slab off a partial list keeps the invariant.
use erebus.Base.{
  ℕ, suc, ◌+◌, ◌-◌, ◌%◌, ◌<◌, ◌≤◌, ◌^◌, false, ◌==◌, Bool-cases, ==→eq, List, ◌∷◌, length, none,
  ◌≡◌, refl, sym, ap, subst, ◌∙◌, inl, inr, arith,
}
use erebus.Base.Family.{put}
use erebus.Heap.{KmemCache, put_slab, put_node, drop_kept, max_cpu_partial}
use erebus.Heap.Nodes.{set_listed, drop_head}
use erebus.Heap.System.{System, claiming, occurs, pop_kept_step, pop_node_step}
use erebus.Heap.Places.{Place, listed_at, kept_at, active, kept, held, listed, Inv}
use erebus.Heap.Lists.{put_id}
use erebus.Heap.Updates.{
  kept_back, slab_at, update-Inv, owned_alike, moved, own_cpu, node_elsewhere,
}
use erebus.Heap.Freed.{put_hit}
use erebus.Heap.Partials.{node_update, off-NodeInv, listed_elsewhere}

pub at_listed : (n : ℕ) (p : Place) → 0 < listed_at n p → p ≡ listed n
at_listed n (listed k) h = elim (Bool-cases (n == k)) [
  | inl q ↦ ap listed (sym (==→eq n k q))
  | inr q ↦ absurd (ground arith)
]
at_listed n _ h = absurd (omega arith)

pub at_kept : (c : ℕ) (p : Place) → 0 < kept_at c p → p ≡ kept c
at_kept c (kept k) h = elim (Bool-cases (c == k)) [
  | inl q ↦ ap kept (sym (==→eq c k q))
  | inr q ↦ absurd (ground arith)
]
at_kept c _ h = absurd (omega arith)

module _ {node_of : ℕ → ℕ} {total : ℕ} {place : ℕ → Place} {y : System}
    (inv : Inv node_of total place y) (c s : ℕ) (rest : List ℕ)
    (none_at : (y.cache.cpus c).page ≡ none) where
  abbrev pub popped : (n : ℕ) → KmemCache
  popped n =
      put_slab (put_node y.cache n (drop_head (y.cache.nodes n) rest)) s
        (set_listed (y.cache.slabs s) false)

  -- A slab that is first on the list of a node is in that place.
  pub first_listed : (n : ℕ) → (y.cache.nodes n).partial ≡ s ∷ rest → place s ≡ listed n
  first_listed n e = let here = (inv.node n).on_listed s in at_listed n (place s) (ground arith)

  first_kept : (y.cache.cpus c).cpu_partial ≡ s ∷ rest → place s ≡ kept c
  first_kept e = let here = (inv.cpu c).on_kept s in at_kept c (place s) (ground arith)

  pub pop_node-Inv :
      (n : ℕ)
      → (y.cache.nodes n).partial ≡ s ∷ rest
      → Inv node_of total (put place s (held c)) (pop_node_step y c s (popped n))
  pop_node-Inv n e =
      let h = first_listed n e in
      let old = slab_at inv c s (place s) (listed n) h in
      let sl = set_listed (y.cache.slabs s) false in
      let nd = drop_head (y.cache.nodes n) rest in
      moved (pop_node_step y c s (popped n)) _ refl (put_id y.cache.cpus c) refl refl
        (put_id y.live s) (put_id y.given s)
        (update-Inv inv c s (held c) (y.cache.cpus c) (claiming s) sl (y.live s) (y.given s)
          (put y.cache.nodes n nd) (rw h tt) refl
          (λ j d. owned_alike y.cache.cpus c (y.cache.cpus c) (place j) refl)
          (record {
            here = old.here;
            flag = refl;
            nothing = old.nothing;
            filled = λ g.
                let f = old.filled g in
                record { once = f.once; sum = f.sum; counted = f.counted; size = f.size };
            status = old.status.1.0;
          })
          (own_cpu place s (held c) c (claiming s) (λ q. let w = sym h ∙ q in cc) (λ q. cc)
            (rw h refl) (λ j q. absurd (let w = q in cc))
            (λ j q. (put_hit place s (held c) j (let w = q in cc), none_at)) (inv.cpu c))
          (node_update s (held c) n nd
            (off-NodeInv s (held c) nd h refl (λ j. rw e (ground arith)) (rw e (omega arith)) refl
              (inv.node n))
            (λ k ne. rw h (listed_elsewhere n k ne)) inv.node))

  now_kept :
      (y.cache.cpus c).cpu_partial ≡ s ∷ rest
      → (j : ℕ) → occurs j rest ≡ kept_at c (put place s (held c) j)
  now_kept e j = elim (Bool-cases (s == j)) [
    | inl q ↦
        subst (λ i. occurs i rest ≡ kept_at c (put place s (held c) i)) (==→eq s j q)
          (let here = subst (λ xs. occurs s xs ≡ kept_at c (place s)) e ((inv.cpu c).on_kept s) in
            let k : kept_at c (place s) ≡ 1 = rw (first_kept e) (ground arith) in ground arith)
    | inr q ↦
        let here = subst (λ xs. occurs j xs ≡ kept_at c (place j)) e ((inv.cpu c).on_kept j) in
        rw q (ground arith)
  ]

  one_less :
      (y.cache.cpus c).cpu_partial ≡ s ∷ rest
      → let n = ((y.cache.cpus c).partial_count + 2 ^ 8 - 1) % 2 ^ 8 in
        (n ≡ length rest) × (n ≤ max_cpu_partial)
  one_less e =
      let (a, b) = (inv.cpu c).kept_count in
      let len : (y.cache.cpus c).partial_count ≡ suc (length rest) = a ∙ ap length e in
      (omega arith, omega arith)

  pub pop_kept-Inv :
      (y.cache.cpus c).cpu_partial ≡ s ∷ rest
      → Inv node_of total (put place s (held c)) (pop_kept_step y c s rest)
  pop_kept-Inv e =
      let h = first_kept e in
      let old = slab_at inv c s (place s) (kept c) h in
      let k = drop_kept (y.cache.cpus c) rest in
      moved (pop_kept_step y c s rest) _ (put_id y.cache.slabs s) refl refl refl (put_id y.live s)
        (put_id y.given s)
        (update-Inv inv c s (held c) k (claiming s) (y.cache.slabs s) (y.live s) (y.given s)
          y.cache.nodes (rw h refl) refl (λ j d. owned_alike y.cache.cpus c k (place j) refl)
          (record {
            here = old.here;
            flag = old.flag;
            nothing = old.nothing;
            filled = old.filled;
            status = old.status.1;
          })
          (record {
            page_active = λ j q. absurd (let w = none_at in cc);
            active_page = λ j q.
                (inv.cpu c).active_page j (kept_back place s (held c) (active c) (λ r. cc) j q);
            no_page = (inv.cpu c).no_page;
            on_kept = now_kept e;
            kept_count = one_less e;
            to_publish = λ j q. absurd (let w = q in cc);
            to_claim = λ j q. (put_hit place s (held c) j (let w = q in cc), none_at);
          })
          (λ n. node_elsewhere place s (held c) n (rw h refl) (inv.node n)))
