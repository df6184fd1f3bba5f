-- ===== src/NumaDomain/Scan.antt =====
-- kernel/src/sched/numa_domain.cpp: the operations that look at a whole domain, and its layout.
use erebus.Base.{
  ℕ, zero, suc, ◌+◌, ◌-◌, ◌*◌, ◌%◌, Bool, true, false, not, Option, none, some, List, [], ◌∷◌, ◌++◌,
  ◌==◌, if◌then◌else◌, add32,
}
use erebus.NumaDomain.{
  NumaDomain, BmiWord, Core, Slot, bits_per_word, acquire_first_free, claim_cpu, word_of, put,
}

-- The siblings of a core, tried in order: the CPU claimed, if one could be.
unfoldable pub claim_sibling : ℕ → NumaDomain → ℕ → NumaDomain × Option ℕ
unfolding claim_cpu
claim_sibling zero d slot = (d, none)
claim_sibling (suc k) d slot =
    let (d', claimed) = claim_cpu d slot in
    elim claimed [ true ↦ (d', some (d'.slots slot).cpu) | false ↦ claim_sibling k d' (suc slot) ]

-- The inner loop of `claim_idle_core`: every round clears a bit of the word, so 65 rounds are
-- enough for one that finds no bit.
unfoldable pub claim_core_in : ℕ → NumaDomain → ℕ → NumaDomain × Option ℕ
unfolding acquire_first_free claim_sibling
claim_core_in zero d word = (d, none)
claim_core_in (suc fuel) d word =
    let (w, bit) = acquire_first_free (d.idle_cores word) in
    let taken : NumaDomain = record d { idle_cores = put d.idle_cores word w } in
    let core = d.cores (word * bits_per_word + bit) in
    let (d', cpu) = claim_sibling core.siblings taken core.first_slot in
    elim (bit == bits_per_word) [
      | true ↦ (d, none)
      | false ↦ elim cpu [ some c ↦ (d', some c) | none ↦ claim_core_in fuel d' word ]
    ]

unfoldable pub claim_core_from : ℕ → NumaDomain → ℕ → NumaDomain × Option ℕ
unfolding claim_core_in
claim_core_from zero d word = (d, none)
claim_core_from (suc k) d word =
    let (d', cpu) = claim_core_in 65 d word in
    elim cpu [ some c ↦ (d', some c) | none ↦ claim_core_from k d' (suc word) ]

unfoldable pub claim_idle_core : NumaDomain → NumaDomain × Option ℕ
unfolding claim_core_from
claim_idle_core d = claim_core_from d.words d 0

-- `popcount` of the bits below an index.
unfoldable pub popcount : ℕ → BmiWord → ℕ
popcount zero w = 0
popcount (suc n) w = popcount n w + (if w n then 1 else 0)

unfoldable pub count_words : ℕ → NumaDomain → ℕ
unfolding popcount
count_words zero d = 0
count_words (suc n) d = add32 (count_words n d) (popcount bits_per_word (d.idle_cpus n))

unfoldable pub idle_cpu_count : NumaDomain → ℕ
unfolding count_words
idle_cpu_count d = count_words d.words d

-- The CPUs that `for_each_overloaded` visits, in order, when it is never told to stop.
unfoldable pub overloaded_in : ℕ → NumaDomain → ℕ → ℕ → List ℕ
overloaded_in zero d word bit = []
overloaded_in (suc k) d word bit =
    let rest = overloaded_in k d word (suc bit) in
    if d.overloaded word bit then (d.slots (word * bits_per_word + bit)).cpu ∷ rest else rest

unfoldable pub overloaded_from : ℕ → NumaDomain → ℕ → ℕ → List ℕ
unfolding overloaded_in
overloaded_from zero d start step = []
overloaded_from (suc k) d start step =
    overloaded_in bits_per_word d ((word_of start + step) % d.words) 0
    ++ overloaded_from k d start (suc step)

-- Until a visit answers that it is enough.
unfoldable pub visit : (ℕ → Bool) → List ℕ → List ℕ
visit fn [] = []
visit fn (cpu ∷ cpus) = let rest = visit fn cpus in if fn cpu then cpu ∷ [] else cpu ∷ rest

unfoldable pub for_each_overloaded : NumaDomain → ℕ → (ℕ → Bool) → List ℕ
unfolding overloaded_from visit
for_each_overloaded d start fn = visit fn (overloaded_from d.words d start 0)

pub record CpuPlacement : Type 0 where
  pub cpu : ℕ
  pub core : ℕ

-- The placement starts a new core.
unfoldable pub starts_core : Option ℕ → CpuPlacement → Bool
starts_core none p = true
starts_core (some core) p = not (p.core == core)

unfoldable pub count_cores : Option ℕ → List CpuPlacement → ℕ
unfolding starts_core
count_cores before [] = 0
count_cores before (p ∷ ps) = (if starts_core before p then 1 else 0) + count_cores (some p.core) ps

-- The tables of slots and cores that `initialize` fills in, from the slot `slot` on.
pub record Layout : Type 0 where
  pub slot_table : ℕ → Slot
  pub core_table : ℕ → Core
  pub cores_seen : ℕ

abbrev pub open_core : Layout → ℕ → Layout
open_core l slot = record l {
  core_table = put l.core_table l.cores_seen (record { busy = 0; first_slot = slot; siblings = 0 });
  cores_seen = suc l.cores_seen;
}

abbrev pub add_slot : Layout → ℕ → ℕ → Layout
add_slot l slot cpu = record l {
  core_table = put l.core_table (l.cores_seen - 1) (record (l.core_table (l.cores_seen - 1)) {
    busy = add32 (l.core_table (l.cores_seen - 1)).busy 1;
    siblings = add32 (l.core_table (l.cores_seen - 1)).siblings 1;
  });
  slot_table = put l.slot_table slot (record { cpu = cpu; core = l.cores_seen - 1 });
}

unfoldable pub lay_out : Option ℕ → ℕ → List CpuPlacement → Layout → Layout
unfolding starts_core
lay_out before slot [] l = l
lay_out before slot (p ∷ ps) l =
    lay_out (some p.core) (suc slot) ps
      (add_slot (if starts_core before p then open_core l slot else l) slot p.cpu)
