-- ===== src/Heap/Safety.antt =====
-- kernel/src/memory/heap.cpp: what holds in every state of a cache, however the allocations and the
-- frees of the CPUs interleave.
use erebus.Base.{
  ℕ, ◌+◌, ◌<◌, ◌^◌, true, false, Option, Option-cases, List, [], ◌∷◌, length, if◌then◌else◌, ltb,
  none, some, ◌≡◌, refl, sym, ap, ◌∙◌, subst, ◌∙◌, inl, inr, arith,
}
use erebus.Heap.{
  Slab, CpuCache, KmemCache, chain, claimed, claim_remote_objects, alloc_local, put_slab, put_node,
}
use erebus.Heap.Nodes.{set_listed, drop_head, pop_from_node_partial}
use erebus.Heap.System.{
  System, claiming, occurs, Step, allocate, claim, deactivate, publish, discard, pop_kept, pop_node,
  claim_partial, fresh, give_back, give_back_remote, Reach, start, later, start_system, claim_step,
  claim_partial_step, pop_node_step,
}
use erebus.Heap.Places.{Place, in_pmm, active, held, listed, Inv}
use erebus.Heap.Updates.{slab_at}
use erebus.Heap.Taken.{List-cases, get_or_else, claimed_cpu, alloc_local-Took, alloc_local-none}
use erebus.Heap.Allocs.{allocate-Inv, claim-Inv, claim_partial-Inv, fresh-Inv}
use erebus.Heap.Frees.{live-given, give_back-Inv, give_back_remote_Inv}
use erebus.Heap.Deactivate.{deactivate-Inv}
use erebus.Heap.Partials.{publish-Inv, discard-Inv}
use erebus.Heap.Pops.{at_listed, pop_node-Inv, pop_kept-Inv}

-- A claim takes the whole remote list.
claim_cases :
    (P : ℕ → CpuCache → Slab → Type 0) (k : CpuCache) (sl : Slab) {obj : ℕ} {k' : CpuCache}
    {sl' : Slab}
    → claim_remote_objects k sl ≡ some (obj, k', sl')
    → ((x : ℕ) (rest : List ℕ) → sl.remote ≡ x ∷ rest → P x (claimed_cpu k rest) (claimed sl))
    → P obj k' sl'
unfolding claim_remote_objects
claim_cases P k sl {obj} {k'} {sl'} h f = elim (List-cases sl.remote) [
  | inl e ↦ absurd (let w = rw (claim_remote_objects, e) at h in cc)
  | inr (x, rest, e) ↦
      let q = ap (get_or_else (obj, k', sl')) (rw (claim_remote_objects, e) at h) in
      subst (λ r. P r.0 r.1 r.2) q (f x rest e)
]

pop_cases :
    (P : ℕ → KmemCache → Type 0) (m : KmemCache) (n : ℕ) {s : ℕ} {m' : KmemCache}
    → pop_from_node_partial m n ≡ some (s, m')
    → ((x : ℕ) (rest : List ℕ)
        → (m.nodes n).partial ≡ x ∷ rest
        → P x
            (put_slab (put_node m n (drop_head (m.nodes n) rest)) x (set_listed (m.slabs x) false)))
    → P s m'
unfolding pop_from_node_partial
pop_cases P m n {s} {m'} h f = elim (List-cases (m.nodes n).partial) [
  | inl e ↦ absurd (let w = rw (pop_from_node_partial, e) at h in cc)
  | inr (x, rest, e) ↦
      let q = ap (get_or_else (s, m')) (rw (pop_from_node_partial, e) at h) in
      subst (λ r. P r.0 r.1) q (f x rest e)
]

-- What the fast path of a CPU promises of the objects that the CPU owns.
abbrev pub FromChain : CpuCache → List ℕ → Option (ℕ × CpuCache) → Type 0
FromChain k live none = chain k ≡ []
FromChain k live (some (obj, k')) = (chain k ≡ obj ∷ chain k') × (occurs obj live ≡ 0)

from_chain :
    (remote live : List ℕ) (k : CpuCache) (total : ℕ)
    → ((obj : ℕ)
        → occurs obj remote + (occurs obj (chain k) + occurs obj live)
          ≡ (if ltb obj total then 1 else 0))
    → FromChain k live (alloc_local k)
from_chain remote live k total once = elim (Option-cases (alloc_local k)) [
  | inl e ↦ rw e (alloc_local-none k e)
  | inr ((obj, k'), e) ↦
      let chain_eq = (alloc_local-Took k obj k' e).first in
      let took =
        subst
          (λ o.
            occurs obj remote + (occurs obj o + occurs obj live) ≡ (if ltb obj total then 1 else 0))
          chain_eq (once obj) in
      rw e (chain_eq, ground arith)
]

active_injective : (c d : ℕ) → active c ≡ active d → c ≡ d
active_injective c d e = cc

module _ (node_of : ℕ → ℕ) (total : ℕ) (pos : 0 < total) (small : total < 2 ^ 15) where
  unfoldable pub Known : System → Type 0
  Known y = (q : ℕ → Place) × Inv node_of total q y

  pub Step-Known : {y z : System} → Step node_of total y z → Known y → Known z
  unfolding Known
  Step-Known (allocate {c} {s} {obj} {k} t at e) (q, inv) =
      (q, allocate-Inv inv c s obj k at (alloc_local-Took _ obj k e))
  Step-Known {y} (claim {c} {s} t at fast e) (q, inv) =
      claim_cases (λ obj k sl. Known (claim_step y c s obj k sl)) (y.cache.cpus c) (y.cache.slabs s)
        e (λ x rest f. (q, claim-Inv inv c s x rest at f (alloc_local-none (y.cache.cpus c) fast)))
  Step-Known (deactivate {c} {s} t at) (q, inv) = deactivate-Inv inv c s at small
  Step-Known (publish {c} {s} t) (q, inv) = publish-Inv inv c s t
  Step-Known (discard {c} {s} t) (q, inv) = discard-Inv inv c s
  Step-Known (pop_kept {c} {s} {rest} t at e) (q, inv) = (_, pop_kept-Inv inv c s rest at e)
  Step-Known {y} (pop_node {c} n t at e) (q, inv) =
      pop_cases (λ s m. Known (pop_node_step y c s m)) y.cache n e
        (λ x rest f. (_, pop_node-Inv inv c x rest at n f))
  Step-Known {y} (claim_partial {c} {s} t e) (q, inv) =
      claim_cases (λ obj k sl. Known (claim_partial_step y c s obj k sl)) (y.cache.cpus c)
        (y.cache.slabs s) e (λ x rest f. (_, claim_partial-Inv inv c s x rest t f))
  Step-Known (fresh {c} {s} t at g) (q, inv) = (_, fresh-Inv inv c s t at g pos)
  Step-Known (give_back {c} {s} obj t at h) (q, inv) = (q, give_back-Inv inv c s obj h at)
  Step-Known (give_back_remote {c} {s} obj t at h) (q, inv) =
      give_back_remote_Inv inv c s obj h small

  start-Known : Known start_system
  unfolding Known
  start-Known = (
    λ s. in_pmm,
    record {
      slab = λ s. record {
        here = refl;
        flag = refl;
        nothing = λ g. refl;
        filled = λ g. absurd (let w = g in cc);
        status = tt;
      };
      cpu = λ c. record {
        page_active = λ s e. absurd (let w = e in cc);
        active_page = λ s e. absurd (let w = e in cc);
        no_page = λ e. refl;
        on_kept = λ s. refl;
        kept_count = (refl, omega arith);
        to_publish = λ s e. absurd (let w = e in cc);
        to_claim = λ s e. absurd (let w = e in cc);
      };
      node = λ n. record { on_listed = λ s. refl; listed_count = refl };
    },
  )

  pub Reach-Known : {y : System} → Reach node_of total y → Known y
  Reach-Known start = start-Known
  Reach-Known (later r st) = Step-Known st (Reach-Known r)

  -- With slabs of 1 up to 2 ^ 15 - 1 objects, in every state that is reached, whatever allocations
  -- and frees the CPUs have interleaved: an object that callers hold was handed out once and not
  -- again since, it is an object of a slab that has not gone back to the PMM, and it is not on the
  -- remote list of that slab.
  pub live-IsUnique :
      {y : System} (s obj : ℕ)
      → Reach node_of total y
      → 0 < occurs obj (y.live s)
      → ((occurs obj (y.live s) ≡ 1) × (obj < total))
        × ((y.given s ≡ true) × (occurs obj (y.cache.slabs s).remote ≡ 0))
  unfolding Known
  live-IsUnique {y} s obj r h =
      let (q, inv) = Reach-Known r in
      let g = live-given inv 0 s obj h in
      let f = ((inv.slab s).filled g).once obj in ((ground arith, ground arith), (g, ground arith))

  -- With slabs of 1 up to 2 ^ 15 - 1 objects, in every state that is reached, for the active slab
  -- of a CPU: it is the active slab of no other, it is frozen, the objects of its state word in use
  -- are those of callers and those that the CPU owns, and the rest is on the remote list. The fast
  -- path of that CPU returns an object that callers do not hold and keeps the others that the CPU
  -- owns; it fails only when the CPU owns none.
  pub active_lem :
      {y : System} (c s d : ℕ)
      → Reach node_of total y
      → (y.cache.cpus c).page ≡ some s
      → (y.cache.cpus d).page ≡ some s
      → ((c ≡ d) × ((y.cache.slabs s).frozen ≡ true))
        × ((((y.cache.slabs s).in_use ≡ length (chain (y.cache.cpus c)) + length (y.live s))
              × ((y.cache.slabs s).in_use + length (y.cache.slabs s).remote ≡ total))
            × FromChain (y.cache.cpus c) (y.live s) (alloc_local (y.cache.cpus c)))
  unfolding Known
  active_lem {y} c s d r at at_d =
      let (q, inv) = Reach-Known r in
      let a = (inv.cpu c).page_active s at in
      let b = (inv.cpu d).page_active s at_d in
      let old = slab_at inv c s (q s) (active c) a in
      let f = old.filled old.here in
      let sum = f.sum in
      (
        (active_injective c d (sym a ∙ b), old.status),
        (
          (omega (arith, f.counted), f.counted),
          from_chain (y.cache.slabs s).remote (y.live s) (y.cache.cpus c) total f.once,
        ),
      )

  -- With slabs of 1 up to 2 ^ 15 - 1 objects, in every state that is reached, a slab on the partial
  -- list of a node is on it once and is one of that node, is marked so, is owned by no CPU, and has
  -- an object to hand out: what is in use is what callers hold, and that is not all of it.
  pub partial_lem :
      {y : System} (n s : ℕ)
      → Reach node_of total y
      → 0 < occurs s (y.cache.nodes n).partial
      → ((occurs s (y.cache.nodes n).partial ≡ 1) × (n ≡ node_of s))
        × ((((y.cache.slabs s).on_node_list ≡ true) × ((y.cache.slabs s).frozen ≡ false))
            × (((y.cache.slabs s).in_use ≡ length (y.live s)) × ((y.cache.slabs s).in_use < total)))
  unfolding Known
  partial_lem {y} n s r h =
      let (q, inv) = Reach-Known r in
      let on = (inv.node n).on_listed s in
      let a = at_listed n (q s) (omega arith) in
      let old = slab_at inv n s (q s) (listed n) a in
      let f = old.filled old.here in
      let (frozen, (less, here)) = old.status in
      let sum = f.sum in
      ((on ∙ rw a (ground arith), here), ((old.flag, frozen), (omega (arith, f.counted), less)))

  -- With slabs of 1 up to 2 ^ 15 - 1 objects, in every state that is reached, a CPU that has popped
  -- a slab off a partial list finds an object on its remote list, so that `refill` does not come to
  -- its fatal error, and callers do not hold it.
  pub popped-claims :
      {y : System} (c s : ℕ)
      → Reach node_of total y
      → y.tasks c ≡ claiming s
      → (x : ℕ) × ((rest : List ℕ) × ((claim_remote_objects (y.cache.cpus c) (y.cache.slabs s)
              ≡ some (x, claimed_cpu (y.cache.cpus c) rest, claimed (y.cache.slabs s)))
            × (occurs x (y.live s) ≡ 0)))
  unfolding Known claim_remote_objects
  popped-claims {y} c s r t =
      let (q, inv) = Reach-Known r in
      let (h, z) = (inv.cpu c).to_claim s t in
      let old = slab_at inv c s (q s) (held c) h in
      let f = old.filled old.here in
      elim (List-cases (y.cache.slabs s).remote) [
        | inl e ↦ absurd (let w = ap length e in omega (arith, f.counted, old.status))
        | inr (x, rest, e) ↦
            let one =
              subst
                (λ o.
                  occurs x o + (occurs x [] + occurs x (y.live s)) ≡ (if ltb x total then 1 else 0))
                e (f.once x) in
            (x, (rest, (rw (claim_remote_objects, e) refl, ground arith)))
      ]

  -- A CPU without an active slab has no object for its fast path.
  pub alloc_local_idle :
      {y : System} (c : ℕ)
      → Reach node_of total y
      → (y.cache.cpus c).page ≡ none
      → alloc_local (y.cache.cpus c) ≡ none
  unfolding Known alloc_local
  alloc_local_idle {y} c r at =
      let (q, inv) = Reach-Known r in
      let z = (inv.cpu c).no_page at in
      elim (Option-cases (alloc_local (y.cache.cpus c))) [
        | inl e ↦ e
        | inr ((obj, k), e) ↦
            absurd (let w = (alloc_local-Took (y.cache.cpus c) obj k e).first in cc)
      ]
