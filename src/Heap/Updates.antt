-- ===== src/Heap/Updates.antt =====
-- kernel/src/memory/heap.cpp: what a step leaves alone keeps the invariant.
use erebus.Base.{
  ℕ, Bool, true, ◌==◌, Bool-cases, ==→eq, not_==→ne, List, [], none, ◌≡◌, ◌≢◌, refl, sym, subst,
  ◌∙◌, inl, inr, arith,
}
use erebus.Base.Family.{put}
use erebus.Heap.{Slab, CpuCache, NodeCache, chain}
use erebus.Heap.System.{System, Task, publishing, claiming, occurs}
use erebus.Heap.Places.{
  Place, Status, active, kept, published, held, kept_at, listed_at, owned, Filled, SlabInv, CpuInv,
  NodeInv, Inv,
}

-- A place that says nothing of any CPU but `c`.
abbrev pub Mine : ℕ → Place → Type 0
Mine c (active d) = d ≡ c
Mine c (kept d) = d ≡ c
Mine c (published d) = d ≡ c
Mine c (held d) = d ≡ c
Mine c _ = Unit

module _ (c d : ℕ) (ne : d ≢ c) where
  pub not_active : (p : Place) → Mine c p → p ≢ active d
  not_active p m q = let m' = subst (Mine c) q m in absurd (ne m')

  pub not_published : (p : Place) → Mine c p → p ≢ published d
  not_published p m q = let m' = subst (Mine c) q m in absurd (ne m')

  pub not_held : (p : Place) → Mine c p → p ≢ held d
  not_held p m q = let m' = subst (Mine c) q m in absurd (ne m')

  pub not_kept : (p : Place) → Mine c p → kept_at d p ≡ 0
  not_kept (kept e) m = ground arith
  not_kept _ m = refl

module _ (place : ℕ → Place) (s : ℕ) (p' : Place) where
  pub keeps : (q : Place) → place s ≢ q → (j : ℕ) → place j ≡ q → put place s p' j ≡ q
  keeps q ne j e = elim (Bool-cases (s == j)) [
    | inl h ↦ absurd (ne (subst (λ i. place i ≡ q) (sym (==→eq s j h)) e))
    | inr h ↦ rw h e
  ]

  pub kept_back : (q : Place) → p' ≢ q → (j : ℕ) → put place s p' j ≡ q → place j ≡ q
  kept_back q ne j e = elim (Bool-cases (s == j)) [
    | inl h ↦ absurd (ne (rw h at e))
    | inr h ↦ rw h at e
  ]

  pub kept_stays :
      (d : ℕ) (xs : List ℕ)
      → kept_at d (place s) ≡ kept_at d p'
      → ((j : ℕ) → occurs j xs ≡ kept_at d (place j))
      → (j : ℕ) → occurs j xs ≡ kept_at d (put place s p' j)
  kept_stays d xs same h j = elim (Bool-cases (s == j)) [
    | inl q ↦ rw q (subst (λ i. occurs i xs ≡ kept_at d p') (==→eq s j q) (h s ∙ same))
    | inr q ↦ rw q (h j)
  ]

  -- The CPU that does the step, on a slab that is not its active one before or after.
  pub own_cpu :
      {k : CpuCache} {t : Task} (c : ℕ) (t' : Task)
      → place s ≢ active c
      → p' ≢ active c
      → kept_at c (place s) ≡ kept_at c p'
      → ((j : ℕ) → t' ≡ publishing j → put place s p' j ≡ published c)
      → ((j : ℕ) → t' ≡ claiming j → (put place s p' j ≡ held c) × (k.page ≡ none))
      → CpuInv place c k t
      → CpuInv (put place s p') c k t'
  own_cpu {k} c t' ne ne' same to_publish to_claim inv = record {
    page_active = λ j e. keeps (active c) ne j (inv.page_active j e);
    active_page = λ j e. inv.active_page j (kept_back (active c) ne' j e);
    no_page = inv.no_page;
    on_kept = kept_stays c k.cpu_partial same inv.on_kept;
    kept_count = inv.kept_count;
    to_publish = to_publish;
    to_claim = to_claim;
  }

  -- The CPUs that neither place of the slab is about.
  pub cpu_elsewhere :
      {k : CpuCache} {t : Task} (c d : ℕ)
      → d ≢ c
      → Mine c (place s)
      → Mine c p'
      → CpuInv place d k t
      → CpuInv (put place s p') d k t
  cpu_elsewhere {k} {t} c d ne m m' inv = record {
    page_active = λ j e. keeps (active d) (not_active c d ne (place s) m) j (inv.page_active j e);
    active_page = λ j e. inv.active_page j (kept_back (active d) (not_active c d ne p' m') j e);
    no_page = inv.no_page;
    on_kept =
        kept_stays d k.cpu_partial (not_kept c d ne (place s) m ∙ sym (not_kept c d ne p' m'))
          inv.on_kept;
    kept_count = inv.kept_count;
    to_publish =
        λ j e. keeps (published d) (not_published c d ne (place s) m) j (inv.to_publish j e);
    to_claim = λ j e.
        let (h, n) = inv.to_claim j e in (keeps (held d) (not_held c d ne (place s) m) j h, n);
  }

  -- The nodes whose list has the slab as before.
  pub node_elsewhere :
      {nd : NodeCache} (n : ℕ)
      → listed_at n (place s) ≡ listed_at n p'
      → NodeInv place n nd
      → NodeInv (put place s p') n nd
  node_elsewhere {nd} n same inv = record {
    on_listed = λ j. elim (Bool-cases (s == j)) [
      | inl q ↦
          rw q (
            subst (λ i. occurs i nd.partial ≡ listed_at n p') (==→eq s j q)
              (inv.on_listed s ∙ same))
      | inr q ↦ rw q (inv.on_listed j)
    ];
    listed_count = inv.listed_count;
  }

-- The slabs that are not the active one of the CPU.
pub owned_elsewhere :
    (cpus : ℕ → CpuCache) (c : ℕ) (k : CpuCache) (p : Place)
    → p ≢ active c
    → owned cpus p ≡ owned (put cpus c k) p
owned_elsewhere cpus c k (active d) ne = elim (Bool-cases (c == d)) [
  | inl q ↦ absurd (ne (subst (λ i. active i ≡ active c) (==→eq c d q) refl))
  | inr q ↦ rw q refl
]
owned_elsewhere cpus c k _ ne = refl

-- A CPU that keeps the objects it owns.
pub owned_alike :
    (cpus : ℕ → CpuCache) (c : ℕ) (k : CpuCache) (p : Place)
    → chain (cpus c) ≡ chain k
    → owned cpus p ≡ owned (put cpus c k) p
owned_alike cpus c k (active d) same = elim (Bool-cases (c == d)) [
  | inl q ↦ rw q (subst (λ i. chain (cpus i) ≡ chain k) (==→eq c d q) same)
  | inr q ↦ rw q refl
]
owned_alike cpus c k _ same = refl

-- A step of one CPU with one slab, which the place `p'` is the next one of.
module _ {node_of : ℕ → ℕ} {total : ℕ} {place : ℕ → Place} {y : System}
    (inv : Inv node_of total place y) (c s : ℕ) (p' : Place) where
  pub update-Inv :
      (k : CpuCache) (t : Task) (sl : Slab) (live : List ℕ) (given : Bool) (nodes : ℕ → NodeCache)
      → Mine c (place s)
      → Mine c p'
      → ((j : ℕ) → s ≢ j → owned y.cache.cpus (place j) ≡ owned (put y.cache.cpus c k) (place j))
      → SlabInv (node_of s) total sl live given p' (owned (put y.cache.cpus c k) p')
      → CpuInv (put place s p') c k t
      → ((n : ℕ) → NodeInv (put place s p') n (nodes n))
      → Inv node_of total (put place s p') (record {
        cache = record {
          slabs = put y.cache.slabs s sl;
          cpus = put y.cache.cpus c k;
          nodes = nodes;
        };
        tasks = put y.tasks c t;
        live = put y.live s live;
        given = put y.given s given;
      })
  update-Inv k t sl live given nodes m m' others here at_cpu at_nodes = record {
    slab = λ j. elim (Bool-cases (s == j)) [
      | inl q ↦ rw q (
          subst (λ i. SlabInv (node_of i) total sl live given p' (owned (put y.cache.cpus c k) p'))
            (==→eq s j q) here)
      | inr q ↦ rw q (
          subst
            (λ o. SlabInv (node_of j) total (y.cache.slabs j) (y.live j) (y.given j) (place j) o)
            (others j (not_==→ne s j q)) (inv.slab j))
    ];
    cpu = λ d. elim (Bool-cases (c == d)) [
      | inl q ↦ rw q (subst (λ i. CpuInv (put place s p') i k t) (==→eq c d q) at_cpu)
      | inr q ↦ rw q (cpu_elsewhere place s p' c d (λ e. not_==→ne c d q (sym e)) m m' (inv.cpu d))
    ];
    node = at_nodes;
  }

  pub slab_at :
      (p : Place)
      → place s ≡ p
      → SlabInv (node_of s) total (y.cache.slabs s) (y.live s) (y.given s) p (owned y.cache.cpus p)
  slab_at p e =
      subst
        (λ q.
          SlabInv (node_of s) total (y.cache.slabs s) (y.live s) (y.given s) q
            (owned y.cache.cpus q))
        e (inv.slab s)

  -- The active slab of a CPU is the only one in that place.
  pub others_active :
      (k : CpuCache)
      → place s ≡ active c
      → (j : ℕ) → s ≢ j
      → owned y.cache.cpus (place j) ≡ owned (put y.cache.cpus c k) (place j)
  others_active k e j ne =
      owned_elsewhere y.cache.cpus c k (place j)
        λ q. let a = (inv.cpu c).active_page s e in let b = (inv.cpu c).active_page j q in ne cc

  -- A CPU without one.
  pub others_none :
      (k : CpuCache)
      → (y.cache.cpus c).page ≡ none
      → (j : ℕ) → s ≢ j
      → owned y.cache.cpus (place j) ≡ owned (put y.cache.cpus c k) (place j)
  others_none k e j ne =
      owned_elsewhere y.cache.cpus c k (place j) λ q. let b = (inv.cpu c).active_page j q in cc

  -- A step that leaves the slab where it is.
  pub stay-Inv :
      (k : CpuCache) (t : Task) (sl : Slab) (live : List ℕ) (given : Bool)
      → ((j : ℕ) → s ≢ j → owned y.cache.cpus (place j) ≡ owned (put y.cache.cpus c k) (place j))
      → SlabInv (node_of s) total sl live given (place s) (owned (put y.cache.cpus c k) (place s))
      → CpuInv place c k t
      → Inv node_of total place (record {
        cache = record {
          slabs = put y.cache.slabs s sl;
          cpus = put y.cache.cpus c k;
          nodes = y.cache.nodes;
        };
        tasks = put y.tasks c t;
        live = put y.live s live;
        given = put y.given s given;
      })
  stay-Inv k t sl live given others here at_cpu = record {
    slab = λ j. elim (Bool-cases (s == j)) [
      | inl q ↦ rw q (
          subst
            (λ i.
              SlabInv (node_of i) total sl live given (place i)
                (owned (put y.cache.cpus c k) (place i)))
            (==→eq s j q) here)
      | inr q ↦ rw q (
          subst
            (λ o. SlabInv (node_of j) total (y.cache.slabs j) (y.live j) (y.given j) (place j) o)
            (others j (not_==→ne s j q)) (inv.slab j))
    ];
    cpu = λ d. elim (Bool-cases (c == d)) [
      | inl q ↦ rw q (subst (λ i. CpuInv place i k t) (==→eq c d q) at_cpu)
      | inr q ↦ rw q (inv.cpu d)
    ];
    node = inv.node;
  }

-- The invariant reads the functions of the system.
pub moved :
    {node_of : ℕ → ℕ} {total : ℕ} {place : ℕ → Place} (y z : System)
    → y.cache.slabs ≡ z.cache.slabs
    → y.cache.cpus ≡ z.cache.cpus
    → y.cache.nodes ≡ z.cache.nodes
    → y.tasks ≡ z.tasks
    → y.live ≡ z.live
    → y.given ≡ z.given
    → Inv node_of total place z
    → Inv node_of total place y
moved y z a b n t l g inv = record {
  slab = λ s. rw (a, b, l, g) (inv.slab s);
  cpu = λ c. rw (b, t) (inv.cpu c);
  node = λ k. rw n (inv.node k);
}

pub cpu_like :
    {place : ℕ → Place} {c : ℕ} {k : CpuCache} {t : Task} (k' : CpuCache)
    → k.page ≡ k'.page
    → k.cpu_partial ≡ k'.cpu_partial
    → k.partial_count ≡ k'.partial_count
    → (k'.page ≡ none → chain k' ≡ [])
    → CpuInv place c k t
    → CpuInv place c k' t
cpu_like k' a b n e inv = record {
  page_active = λ s q. inv.page_active s (a ∙ q);
  active_page = λ s q. sym a ∙ inv.active_page s q;
  no_page = e;
  on_kept = λ s. rw (sym b) (inv.on_kept s);
  kept_count = rw (sym b, sym n) inv.kept_count;
  to_publish = inv.to_publish;
  to_claim = λ s q. let (h, f) = inv.to_claim s q in (h, sym a ∙ f);
}

-- A slab that the cache has, and that stays in its place.
pub refilled :
    {node total : ℕ} {sl sl' : Slab} {live live' : List ℕ} {given : Bool} {p : Place}
    {own own' : List ℕ}
    → SlabInv node total sl live given p own
    → given ≡ true
    → sl.on_node_list ≡ sl'.on_node_list
    → (Filled total sl live own → Filled total sl' live' own')
    → Status node p sl'.frozen sl'.in_use total
    → SlabInv node total sl' live' given p own'
refilled inv e flag fill st = record {
  here = inv.here;
  flag = sym flag ∙ inv.flag;
  nothing = λ f. absurd (let z = e in cc);
  filled = λ g. fill (inv.filled g);
  status = st;
}
