-- ===== src/Heap/Destroy.antt =====
-- kernel/src/memory/heap.cpp: `destroy`, which walks the slabs that the CPUs and the nodes have. A slab
-- with every object in use is on none of these lists. The emptied lists are not returned.
use erebus.Base.{
  ℕ, zero, suc, ◌+◌, ◌<◌, ◌^◌, sub32, Bool, ◌==◌, if◌then◌else◌, Bool-cases, ==→eq, List, [], ◌∷◌,
  length, Option, none, some, ◌≡◌, refl, sym, subst, ◌∙◌, inl, inr, arith,
}
use erebus.Heap.{CpuCache, KmemCache, chain}
use erebus.Heap.System.{System, occurs, Reach}
use erebus.Heap.Places.{Place, active, kept, listed, Inv}
use erebus.Heap.Updates.{slab_at}
use erebus.Heap.Pops.{at_kept, at_listed}
use erebus.Heap.Safety.{Known, Reach-Known}

-- The slabs that went back to the PMM, and the live objects counted.
pub record Destroyed : Type 0 where
  pub released : List ℕ
  pub live_objects : ℕ

unfoldable pub release_if_unused : ℕ → ℕ → Destroyed → Destroyed
release_if_unused s live d =
    if live == 0
    then record d { released = s ∷ d.released }
    else record d { live_objects = d.live_objects + live }

unfoldable pub destroy_list : KmemCache → List ℕ → Destroyed → Destroyed
destroy_list m [] d = d
destroy_list m (s ∷ rest) d = destroy_list m rest (release_if_unused s (m.slabs s).in_use d)

abbrev pub destroy_page : KmemCache → CpuCache → Option ℕ → Destroyed → Destroyed
destroy_page m k none d = d
destroy_page m k (some s) d = release_if_unused s (sub32 (m.slabs s).in_use (length (chain k))) d

unfoldable pub destroy_cpus : KmemCache → ℕ → Destroyed → Destroyed
destroy_cpus m zero d = d
destroy_cpus m (suc c) d =
    let k = m.cpus c in destroy_list m k.cpu_partial (destroy_page m k k.page (destroy_cpus m c d))

unfoldable pub destroy_nodes : KmemCache → ℕ → Destroyed → Destroyed
destroy_nodes m zero d = d
destroy_nodes m (suc n) d = destroy_list m (m.nodes n).partial (destroy_nodes m n d)

unfoldable pub destroy : KmemCache → (cpus nodes : ℕ) → Destroyed
destroy m cpus nodes =
    destroy_nodes m nodes (destroy_cpus m cpus (record { released = []; live_objects = 0 }))

-- Whether the cache itself is freed too.
abbrev pub frees_cache : Destroyed → Bool
frees_cache d = d.live_objects == 0

-- No slab that was released holds an object of a caller.
abbrev IsUnused : System → Destroyed → Type 0
IsUnused y d = (s : ℕ) → 0 < occurs s d.released → y.live s ≡ []

no_live : (xs : List ℕ) → length xs ≡ 0 → xs ≡ []
no_live [] h = refl
no_live (x ∷ xs) h = absurd (omega arith)

release-IsUnused :
    (y : System) (s live : ℕ) (d : Destroyed)
    → live ≡ length (y.live s)
    → IsUnused y d
    → IsUnused y (release_if_unused s live d)
unfolding release_if_unused
release-IsUnused y s live d e inv j h = elim (Bool-cases (live == 0)) [
  | inl z ↦ elim (Bool-cases (j == s)) [
    | inl q ↦
        subst (λ i. y.live i ≡ []) (sym (==→eq j s q)) (no_live (y.live s) (sym e ∙ ==→eq live 0 z))
    | inr q ↦ inv j (let w = rw (release_if_unused, z) at h in ground arith)
  ]
  | inr z ↦ inv j (rw (release_if_unused, z) at h)
]

module _ {node_of : ℕ → ℕ} {total : ℕ} {place : ℕ → Place} {y : System}
    (inv : Inv node_of total place y) (small : total < 2 ^ 15) where
  list-IsUnused :
      (xs : List ℕ) (d : Destroyed)
      → ((s : ℕ) → 0 < occurs s xs → (y.cache.slabs s).in_use ≡ length (y.live s))
      → IsUnused y d
      → IsUnused y (destroy_list y.cache xs d)
  unfolding destroy_list
  list-IsUnused [] d h k = k
  list-IsUnused (s ∷ rest) d h k =
      list-IsUnused rest (release_if_unused s (y.cache.slabs s).in_use d)
        (λ j l. h j (ground arith))
        (release-IsUnused y s (y.cache.slabs s).in_use d (h s (ground arith)) k)

  kept_live :
      (c s : ℕ)
      → 0 < occurs s (y.cache.cpus c).cpu_partial
      → (y.cache.slabs s).in_use ≡ length (y.live s)
  kept_live c s h =
      let on = (inv.cpu c).on_kept s in
      let a = at_kept c (place s) (omega arith) in
      let old = slab_at inv c s (place s) (kept c) a in
      let f = old.filled old.here in let sum = f.sum in omega (arith, f.counted)

  listed_live :
      (n s : ℕ)
      → 0 < occurs s (y.cache.nodes n).partial
      → (y.cache.slabs s).in_use ≡ length (y.live s)
  listed_live n s h =
      let on = (inv.node n).on_listed s in
      let a = at_listed n (place s) (omega arith) in
      let old = slab_at inv n s (place s) (listed n) a in
      let f = old.filled old.here in let sum = f.sum in omega (arith, f.counted)

  page-IsUnused :
      (c : ℕ) (o : Option ℕ) (d : Destroyed)
      → (y.cache.cpus c).page ≡ o
      → IsUnused y d
      → IsUnused y (destroy_page y.cache (y.cache.cpus c) o d)
  page-IsUnused c none d e k = k
  page-IsUnused c (some s) d e k =
      let a = (inv.cpu c).page_active s e in
      let old = slab_at inv c s (place s) (active c) a in
      let f = old.filled old.here in
      let sum = f.sum in
      release-IsUnused y s (sub32 (y.cache.slabs s).in_use (length (chain (y.cache.cpus c)))) d
        (omega (arith, f.counted)) k

  cpus-IsUnused : (c : ℕ) (d : Destroyed) → IsUnused y d → IsUnused y (destroy_cpus y.cache c d)
  unfolding destroy_cpus
  cpus-IsUnused zero d k = k
  cpus-IsUnused (suc c) d k =
      let e = destroy_cpus y.cache c d in
      list-IsUnused (y.cache.cpus c).cpu_partial
        (destroy_page y.cache (y.cache.cpus c) (y.cache.cpus c).page e) (kept_live c)
        (page-IsUnused c (y.cache.cpus c).page e refl (cpus-IsUnused c d k))

  nodes-IsUnused : (n : ℕ) (d : Destroyed) → IsUnused y d → IsUnused y (destroy_nodes y.cache n d)
  unfolding destroy_nodes
  nodes-IsUnused zero d k = k
  nodes-IsUnused (suc n) d k =
      list-IsUnused (y.cache.nodes n).partial (destroy_nodes y.cache n d) (listed_live n)
        (nodes-IsUnused n d k)

-- With slabs of 1 up to 2 ^ 15 - 1 objects, in every state that is reached: `destroy` returns no
-- slab to the page allocator that holds an object of a caller.
pub destroy_lem :
    (node_of : ℕ → ℕ) (total : ℕ) {y : System} (cpus nodes s : ℕ)
    → 0 < total
    → total < 2 ^ 15
    → Reach node_of total y
    → 0 < occurs s (destroy y.cache cpus nodes).released
    → y.live s ≡ []
unfolding destroy Known
destroy_lem node_of total {y} cpus nodes s pos small r h =
    let (q, inv) = Reach-Known node_of total pos small r in
    nodes-IsUnused inv small nodes
      (destroy_cpus y.cache cpus (record { released = []; live_objects = 0 }))
      (cpus-IsUnused inv small cpus (record { released = []; live_objects = 0 })
        (λ j l. absurd (omega arith)))
      s h
