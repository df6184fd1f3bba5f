-- ===== src/Heap/Partials.antt =====
-- kernel/src/memory/heap.cpp: the steps on the partial lists of the nodes and the CPUs keep the
-- invariant.
use erebus.Base.{
  ℕ, ◌+◌, ◌<◌, sub32, true, false, ◌==◌, ltb, ◌&&◌, if◌then◌else◌, Bool-cases, ==→eq, not_==→ne,
  List, [], ◌∷◌, length, length-append, ◌≡◌, ◌≢◌, refl, sym, ap, subst, ◌∙◌, inl, inr, arith,
}
use erebus.Base.Family.{put}
use erebus.Heap.{Slab, NodeCache}
use erebus.Heap.Nodes.{
  mostly_empty, set_listed, link, has_enough, publish_releases, publish_partial, discard_releases,
  discard_if_empty, unlinked, min_partial_pages,
}
use erebus.Heap.System.{System, idle, publishing, occurs, publish_step, discard_step}
use erebus.Heap.Places.{
  Place, is_listed, listed_at, in_pmm, published, listed, Filled, NodeInv, Inv,
}
use erebus.Heap.Lists.{put_id, occurs-append, occurs-remove_first, length-remove_first}
use erebus.Heap.Updates.{slab_at, update-Inv, stay-Inv, owned_alike, moved, own_cpu, node_elsewhere}
use erebus.Heap.Taken.{List-cases}
use erebus.Heap.Freed.{quiet_cpu}

-- The lists of the nodes when one of them changes.
pub node_update :
    {place : ℕ → Place} {nodes : ℕ → NodeCache} (s : ℕ) (p' : Place) (n : ℕ) (nd : NodeCache)
    → NodeInv (put place s p') n nd
    → ((k : ℕ) → n ≢ k → listed_at k (place s) ≡ listed_at k p')
    → ((k : ℕ) → NodeInv place k (nodes k))
    → (k : ℕ) → NodeInv (put place s p') k (put nodes n nd k)
node_update {place} {nodes} s p' n nd at other inv k = elim (Bool-cases (n == k)) [
  | inl q ↦ rw q (subst (λ i. NodeInv (put place s p') i nd) (==→eq n k q) at)
  | inr q ↦ rw q (node_elsewhere place s p' k (other k (not_==→ne n k q)) (inv k))
]

pub occurs-link :
    (j s : ℕ) (nd : NodeCache) (sl : Slab)
    → occurs j (link nd s sl).partial ≡ (if j == s then 1 else 0) + occurs j nd.partial
occurs-link j s nd sl = elim (Bool-cases (mostly_empty sl)) [
  | inl e ↦ rw e (ground arith)
  | inr e ↦ rw e (ground (arith, occurs-append j nd.partial (s ∷ [])))
]

length-link :
    (s : ℕ) (nd : NodeCache) (sl : Slab) → length (link nd s sl).partial ≡ length nd.partial + 1
length-link s nd sl = elim (Bool-cases (mostly_empty sl)) [
  | inl e ↦ rw e (omega arith)
  | inr e ↦ rw e (omega (arith, length-append nd.partial (s ∷ [])))
]

-- A slab goes on the list of a node, and off it.
linked-NodeInv :
    {place : ℕ → Place} {n : ℕ} {nd : NodeCache} (s : ℕ) (sl : Slab)
    → listed_at n (place s) ≡ 0
    → NodeInv place n nd
    → NodeInv (put place s (listed n)) n (link nd s sl)
linked-NodeInv {place} {n} {nd} s sl z inv = record {
  on_listed = λ j. elim (Bool-cases (s == j)) [
    | inl q ↦
        subst (λ i. occurs i (link nd s sl).partial ≡ listed_at n (put place s (listed n) i))
          (==→eq s j q) (let here = inv.on_listed s ∙ z in ground (arith, occurs-link s s nd sl))
    | inr q ↦ rw q (ground (arith, occurs-link j s nd sl, inv.on_listed j))
  ];
  listed_count = omega (arith, length-link s nd sl, inv.listed_count);
}

pub off-NodeInv :
    {place : ℕ → Place} {n : ℕ} {nd : NodeCache} (s : ℕ) (p' : Place) (nd' : NodeCache)
    → place s ≡ listed n
    → listed_at n p' ≡ 0
    → ((j : ℕ) → occurs j nd'.partial + (if j == s then 1 else 0) ≡ occurs j nd.partial)
    → length nd'.partial + 1 ≡ length nd.partial
    → nd'.num_partial ≡ sub32 nd.num_partial 1
    → NodeInv place n nd
    → NodeInv (put place s p') n nd'
off-NodeInv {place} {n} {nd} s p' nd' e z less len num inv = record {
  on_listed = λ j. elim (Bool-cases (s == j)) [
    | inl q ↦
        subst (λ i. occurs i nd'.partial ≡ listed_at n (put place s p' i)) (==→eq s j q)
          (let here : occurs s nd.partial ≡ 1 = inv.on_listed s ∙ (rw e (ground arith)) in
            ground (arith, less s))
    | inr q ↦ rw q (ground (arith, less j, inv.on_listed j))
  ];
  listed_count = omega (arith, inv.listed_count);
}

pub listed_elsewhere : (n k : ℕ) → n ≢ k → listed_at k (listed n) ≡ 0
listed_elsewhere n k ne = ground arith

-- With no object in use and none with a CPU, the callers hold none.
none_live :
    {total : ℕ} {sl : Slab} {live : List ℕ} → sl.in_use ≡ 0 → Filled total sl live [] → live ≡ []
none_live {live = live} z f = elim (List-cases live) [
  | inl e ↦ e
  | inr (x, rest, e) ↦ absurd (let w = ap length e in omega (arith, f.sum, f.counted))
]

Listed-cases : (p : Place) → is_listed p ≡ true → (n : ℕ) × (p ≡ listed n)
Listed-cases (listed n) h = (n, refl)
Listed-cases _ h = absurd (let w = h in cc)

discard_marked :
    (sl : Slab) (nd : NodeCache)
    → (sl.on_node_list && (sl.in_use == 0 && ltb min_partial_pages nd.num_partial)) ≡ true
    → sl.on_node_list ≡ true
discard_marked sl nd e = ground arith

discard_empty :
    (sl : Slab) (nd : NodeCache)
    → (sl.on_node_list && (sl.in_use == 0 && ltb min_partial_pages nd.num_partial)) ≡ true
    → sl.in_use ≡ 0
discard_empty sl nd e = ground arith

module _ {node_of : ℕ → ℕ} {total : ℕ} {place : ℕ → Place} {y : System}
    (inv : Inv node_of total place y) (c s : ℕ) where
  publish_released :
      y.tasks c ≡ publishing s
      → publish_releases node_of y.cache s ≡ true
      → Inv node_of total (put place s in_pmm) (publish_step node_of y c s)
  unfolding publish_partial
  publish_released t e =
      let h = (inv.cpu c).to_publish s t in
      let old = slab_at inv c s (place s) (published c) h in
      moved (publish_step node_of y c s) _ (rw (publish_partial, e) (put_id y.cache.slabs s))
        (rw (publish_partial, e) (put_id y.cache.cpus c)) (rw (publish_partial, e) refl) (rw e refl)
        (rw e (put_id y.live s)) (rw e refl)
        (update-Inv inv c s in_pmm (y.cache.cpus c) idle (y.cache.slabs s) (y.live s) false
          y.cache.nodes (rw h refl) tt
          (λ j d. owned_alike y.cache.cpus c (y.cache.cpus c) (place j) refl)
          (record {
            here = refl;
            flag = old.flag;
            nothing = λ g.
                none_live (has_enough_lem (y.cache.nodes (node_of s)) (y.cache.slabs s) e)
                  (old.filled old.here);
            filled = λ g. absurd (let w = g in cc);
            status = tt;
          })
          (own_cpu place s in_pmm c idle (λ q. let w = sym h ∙ q in cc) (λ q. cc) (rw h refl)
            (λ j q. absurd (let w = q in cc)) (λ j q. absurd (let w = q in cc)) (inv.cpu c))
          (λ n. node_elsewhere place s in_pmm n (rw h refl) (inv.node n)))
    where
      has_enough_lem : (nd : NodeCache) (sl : Slab) → has_enough nd sl ≡ true → sl.in_use ≡ 0
      has_enough_lem nd sl e = ground arith

  publish_listed :
      y.tasks c ≡ publishing s
      → publish_releases node_of y.cache s ≡ false
      → Inv node_of total (put place s (listed (node_of s))) (publish_step node_of y c s)
  unfolding publish_partial
  publish_listed t e =
      let h = (inv.cpu c).to_publish s t in
      let old = slab_at inv c s (place s) (published c) h in
      let sl = y.cache.slabs s in
      let n = node_of s in
      moved (publish_step node_of y c s) _ (rw (publish_partial, e) refl)
        (rw (publish_partial, e) (put_id y.cache.cpus c)) (rw (publish_partial, e) refl) (rw e refl)
        (rw e (put_id y.live s)) (rw e (put_id y.given s))
        (update-Inv inv c s (listed n) (y.cache.cpus c) idle (set_listed sl true) (y.live s)
          (y.given s) (put y.cache.nodes n (link (y.cache.nodes n) s sl)) (rw h refl) tt
          (λ j d. owned_alike y.cache.cpus c (y.cache.cpus c) (place j) refl)
          (record {
            here = old.here;
            flag = refl;
            nothing = old.nothing;
            filled = λ g.
                let f = old.filled g in
                record { once = f.once; sum = f.sum; counted = f.counted; size = f.size };
            status = (old.status.0, (old.status.1, refl));
          })
          (own_cpu place s (listed n) c idle (λ q. let w = sym h ∙ q in cc) (λ q. cc) (rw h refl)
            (λ j q. absurd (let w = q in cc)) (λ j q. absurd (let w = q in cc)) (inv.cpu c))
          (node_update s (listed n) n (link (y.cache.nodes n) s sl)
            (linked-NodeInv s sl (rw h refl) (inv.node n))
            (λ k ne. rw h (sym (listed_elsewhere n k ne))) inv.node))

  pub publish-Inv :
      y.tasks c ≡ publishing s → (q : ℕ → Place) × Inv node_of total q (publish_step node_of y c s)
  publish-Inv t = elim (Bool-cases (publish_releases node_of y.cache s)) [
    | inl e ↦ (put place s in_pmm, publish_released t e)
    | inr e ↦ (put place s (listed (node_of s)), publish_listed t e)
  ]

  discard_kept :
      discard_releases node_of y.cache s ≡ false
      → Inv node_of total place (discard_step node_of y c s)
  unfolding discard_if_empty
  discard_kept e =
      moved (discard_step node_of y c s) _ (rw (discard_if_empty, e) (put_id y.cache.slabs s))
        (rw (discard_if_empty, e) (put_id y.cache.cpus c)) (rw (discard_if_empty, e) refl)
        (rw e refl) (rw e (put_id y.live s)) (rw e (put_id y.given s))
        (stay-Inv inv c s (place s) (y.cache.cpus c) idle (y.cache.slabs s) (y.live s) (y.given s)
          (λ j d. owned_alike y.cache.cpus c (y.cache.cpus c) (place j) refl)
          (rw (sym (owned_alike y.cache.cpus c (y.cache.cpus c) (place s) refl)) (inv.slab s))
          (quiet_cpu idle (λ j q. cc, λ j q. cc) (inv.cpu c)))

  -- A slab that is marked as listed is on the list of its node.
  marked_listed : (y.cache.slabs s).on_node_list ≡ true → place s ≡ listed (node_of s)
  marked_listed e =
      let (n, h) = Listed-cases (place s) (sym (inv.slab s).flag ∙ e) in
      let st = (slab_at inv c s (place s) (listed n) h).status in h ∙ ap listed st.1.1

  discard_released :
      discard_releases node_of y.cache s ≡ true
      → Inv node_of total (put place s in_pmm) (discard_step node_of y c s)
  unfolding discard_if_empty
  discard_released e =
      let sl = y.cache.slabs s in
      let n = node_of s in
      let nd = y.cache.nodes n in
      let h = marked_listed (discard_marked sl nd e) in
      let on : occurs s nd.partial ≡ 1 = (inv.node n).on_listed s ∙ rw h (ground arith) in
      let pos : 0 < occurs s nd.partial = omega arith in
      let old = slab_at inv c s (place s) (listed n) h in
      moved (discard_step node_of y c s) _ (rw (discard_if_empty, e) refl)
        (rw (discard_if_empty, e) (put_id y.cache.cpus c)) (rw (discard_if_empty, e) refl)
        (rw e refl) (rw e (put_id y.live s)) (rw e refl)
        (update-Inv inv c s in_pmm (y.cache.cpus c) idle (set_listed sl false) (y.live s) false
          (put y.cache.nodes n (unlinked nd s)) (rw h tt) tt
          (λ j d. owned_alike y.cache.cpus c (y.cache.cpus c) (place j) refl)
          (record {
            here = refl;
            flag = refl;
            nothing = λ g. none_live (discard_empty sl nd e) (old.filled old.here);
            filled = λ g. absurd (let w = g in cc);
            status = tt;
          })
          (own_cpu place s in_pmm c idle (λ q. let w = sym h ∙ q in cc) (λ q. cc) (rw h refl)
            (λ j q. absurd (let w = q in cc)) (λ j q. absurd (let w = q in cc)) (inv.cpu c))
          (node_update s in_pmm n (unlinked nd s)
            (off-NodeInv s in_pmm (unlinked nd s) h refl
              (λ j. occurs-remove_first s j nd.partial pos) (length-remove_first s nd.partial pos)
              refl (inv.node n))
            (λ k ne. rw h (listed_elsewhere n k ne)) inv.node))

  pub discard-Inv : (q : ℕ → Place) × Inv node_of total q (discard_step node_of y c s)
  discard-Inv = elim (Bool-cases (discard_releases node_of y.cache s)) [
    | inl e ↦ (put place s in_pmm, discard_released e)
    | inr e ↦ (place, discard_kept e)
  ]
