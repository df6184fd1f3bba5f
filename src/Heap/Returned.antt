-- ===== src/Heap/Returned.antt =====
-- kernel/src/memory/heap.cpp: where an object is once `free` has returned.
use erebus.Base.{
  ℕ, ◌+◌, ◌<◌, ◌^◌, Bool, false, Bool-cases, Option, some, List, [], length, ◌≡◌, refl, ap, ◌∙◌,
  ◌⊎◌, inl, inr, arith, lt→ltb,
}
use erebus.Base.Family.{put}
use erebus.Heap.{chain, CpuCache}
use erebus.Heap.Nodes.{remove_first}
use erebus.Heap.System.{System, idle, occurs, Reach}
use erebus.Heap.Places.{Place, in_pmm, active, kept, published, held, listed, full, owned, CpuInv}
use erebus.Heap.Lists.{put_same, occurs-remove_first}
use erebus.Heap.Safety.{Known, Reach-Known, live-IsUnique}
use erebus.Heap.Calls.{free}
use erebus.Heap.Outcomes.{free-Reach}

-- The free objects of a slab that a CPU owns: those of the CPU whose active slab it is, or none.
abbrev pub IsOwned : (ℕ → CpuCache) → ℕ → List ℕ → Type 0
IsOwned cpus s own = (own ≡ []) ⊎ ((c : ℕ) × ((cpus c).page ≡ some s) × (own ≡ chain (cpus c)))

-- The slab has gone back to the PMM, with no object of callers; or the object is once on its remote
-- list or among those that a CPU owns, and its state word counts the objects of callers and of the
-- CPU, which with the remote list are all its objects.
abbrev pub IsReturned : ℕ → System → ℕ → ℕ → Type 0
IsReturned total z s obj =
    ((z.given s ≡ false) × (z.live s ≡ []))
    ⊎ ((own : List ℕ) × IsOwned z.cache.cpus s own
        × (occurs obj (z.cache.slabs s).remote + occurs obj own ≡ 1)
        × ((z.cache.slabs s).in_use ≡ length own + length (z.live s))
        × ((z.cache.slabs s).in_use + length (z.cache.slabs s).remote ≡ total))

owned-IsOwned :
    (place : ℕ → Place) (z : System) (s : ℕ) (p : Place)
    → ((c : ℕ) → CpuInv place c (z.cache.cpus c) (z.tasks c))
    → place s ≡ p
    → IsOwned z.cache.cpus s (owned z.cache.cpus p)
owned-IsOwned place z s (active c) cpu e = inr (c, (cpu c).active_page s e, refl)
owned-IsOwned place z s in_pmm cpu e = inl refl
owned-IsOwned place z s full cpu e = inl refl
owned-IsOwned place z s (kept c) cpu e = inl refl
owned-IsOwned place z s (published c) cpu e = inl refl
owned-IsOwned place z s (held c) cpu e = inl refl
owned-IsOwned place z s (listed n) cpu e = inl refl

module _ (node_of : ℕ → ℕ) (total : ℕ) (pos : 0 < total) (small : total < 2 ^ 15) where
  -- An object of a slab that callers do not hold is where it can be handed out from.
  not_live-IsReturned :
      (z : System) (s obj : ℕ)
      → Reach node_of total z
      → obj < total
      → occurs obj (z.live s) ≡ 0
      → IsReturned total z s obj
  unfolding Known
  not_live-IsReturned z s obj r lt gone =
      let (place, inv) = Reach-Known node_of total pos small r in
      elim (Bool-cases (z.given s)) [
        | inr e ↦ inl (e, (inv.slab s).nothing e)
        | inl e ↦
            let f = (inv.slab s).filled e in
            let once = f.once obj in
            let in_range = lt→ltb obj total lt in
            let one = rw (gone, in_range) at once in
            inr (
              owned z.cache.cpus (place s),
              owned-IsOwned place z s (place s) inv.cpu refl,
              omega arith,
              omega (arith, f.sum, f.counted),
              f.counted,
            )
      ]

  -- With slabs of 1 up to 2 ^ 15 - 1 objects and a page allocator that gives out no block that the
  -- cache has, from every state that is reached: `free` on an idle CPU of an object that callers
  -- hold takes it and no other back, and leaves a state that is reached, with the CPU idle. Callers
  -- then do not hold the object. Either the slab has gone back to the PMM, with no object of callers;
  -- or the object is once on the remote list or among the objects of the CPU whose active slab it
  -- is, and the state word counts the objects of callers and of that CPU.
  pub free-IsReturned :
      (node : ℕ) (pages : (ℕ → Bool) → Option ℕ) (y : System) (c s obj : ℕ)
      → ((g : ℕ → Bool) (b : ℕ) → pages g ≡ some b → g b ≡ false)
      → Reach node_of total y
      → y.tasks c ≡ idle
      → 0 < occurs obj (y.live s)
      → let z = free node_of total node pages y c s obj in
        (Reach node_of total z × (z.tasks c ≡ idle))
        × ((z.live ≡ put y.live s (remove_first obj (y.live s))) × (occurs obj (z.live s) ≡ 0))
        × IsReturned total z s obj
  free-IsReturned node pages y c s obj new_block r t h =
      let (r', (live, t')) =
        free-Reach node_of total node pages pos small new_block y c s obj r t h in
      let ((one, lt), rest) = live-IsUnique node_of total pos small s obj r h in
      let z = free node_of total node pages y c s obj in
      let at : z.live s ≡ remove_first obj (y.live s) =
        ap (λ f. f s) live ∙ put_same y.live s (remove_first obj (y.live s)) in
      let removed = occurs-remove_first obj obj (y.live s) h in
      let gone : occurs obj (z.live s) ≡ 0 = rw at (ground arith) in
      ((r', t'), (live, gone), not_live-IsReturned z s obj r' lt gone)
