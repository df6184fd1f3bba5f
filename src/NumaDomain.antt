-- ===== src/NumaDomain.antt =====
-- kernel/src/sched/numa_domain.cpp, kernel/include/sched/numa_domain.hpp and
-- klib/include/bmi_word.hpp: which CPUs of a node are idle. A word of a bitmap is a function from
-- its 64 bits, an array is a function from indices, and every operation on a word is one step.
pub mod Claims
pub mod Scan
use erebus.Base.{
  ℕ, zero, suc, ◌+◌, ◌*◌, ◌/◌, ◌%◌, ◌^◌, Bool, true, false, Option, none, some, ◌==◌, if◌then◌else◌,
  add32, sub32,
}

abbrev pub BmiWord : Type 0
BmiWord = ℕ → Bool

abbrev pub bits_per_word : ℕ
bits_per_word = 64

abbrev pub put : {A : Type 0} → (ℕ → A) → ℕ → A → ℕ → A
put f i a j = if i == j then a else f j

abbrev pub release_bit : BmiWord → ℕ → BmiWord
release_bit w bit = put w bit true

-- The word without the bit, and whether it was set.
abbrev pub acquire_specific : BmiWord → ℕ → BmiWord × Bool
acquire_specific w bit = (put w bit false, w bit)

-- The lowest bit that is set from `bit` on, `countr_zero`.
unfoldable pub lowest_set : ℕ → BmiWord → ℕ → Option ℕ
lowest_set zero w bit = none
lowest_set (suc k) w bit = let above = lowest_set k w (suc bit) in if w bit then some bit else above

-- The lowest bit that is set is cleared; 64 says that there is none.
unfoldable pub acquire_first_free : BmiWord → BmiWord × ℕ
unfolding lowest_set
acquire_first_free w = elim (lowest_set bits_per_word w 0) [
  | none ↦ (w, bits_per_word)
  | some bit ↦ (put w bit false, bit)
]

pub record Slot : Type 0 where
  pub cpu : ℕ
  pub core : ℕ

pub record Core : Type 0 where
  pub busy : ℕ
  pub first_slot : ℕ
  pub siblings : ℕ

pub record NumaDomain : Type 0 where
  pub words : ℕ
  pub slots : ℕ → Slot
  pub cores : ℕ → Core
  pub idle_cpus : ℕ → BmiWord
  pub idle_cores : ℕ → BmiWord
  pub overloaded : ℕ → BmiWord

abbrev pub word_of : ℕ → ℕ
word_of index = index / bits_per_word

abbrev pub bit_of : ℕ → ℕ
bit_of index = index % bits_per_word

abbrev pub set_busy : NumaDomain → ℕ → ℕ → NumaDomain
set_busy d core n = record d { cores = put d.cores core (record (d.cores core) { busy = n }) }

abbrev pub set_idle_core : NumaDomain → ℕ → Bool → NumaDomain
set_idle_core d core on = record d {
  idle_cores = put d.idle_cores (word_of core) (put (d.idle_cores (word_of core)) (bit_of core) on);
}

unfoldable pub note_idle : NumaDomain → ℕ → NumaDomain
note_idle d core =
    let d' = set_busy d core (sub32 (d.cores core).busy 1) in
    if (d.cores core).busy == 1 then set_idle_core d' core true else d'

unfoldable pub note_busy : NumaDomain → ℕ → NumaDomain
note_busy d slot =
    let core = (d.slots slot).core in
    let d' = set_busy d core (add32 (d.cores core).busy 1) in
    if (d.cores core).busy == 0 then set_idle_core d' core false else d'

abbrev pub set_idle_cpu : NumaDomain → ℕ → Bool → NumaDomain
set_idle_cpu d slot on = record d {
  idle_cpus = put d.idle_cpus (word_of slot) (put (d.idle_cpus (word_of slot)) (bit_of slot) on);
}

abbrev pub is_idle_cpu : NumaDomain → ℕ → Bool
is_idle_cpu d slot = d.idle_cpus (word_of slot) (bit_of slot)

unfoldable pub mark_idle : NumaDomain → ℕ → NumaDomain
unfolding note_idle
mark_idle d slot =
    if is_idle_cpu d slot then d else note_idle (set_idle_cpu d slot true) (d.slots slot).core

unfoldable pub claim_cpu : NumaDomain → ℕ → NumaDomain × Bool
unfolding note_busy
claim_cpu d slot =
    let (w, was_idle) = acquire_specific (d.idle_cpus (word_of slot)) (bit_of slot) in
    let d' = record d { idle_cpus = put d.idle_cpus (word_of slot) w } in
    if was_idle then (note_busy d' slot, true) else (d', false)

-- The loop of `claim_idle_cpu`, over the words that are left; `none` is NO_CPU.
unfoldable pub claim_from : ℕ → NumaDomain → ℕ → NumaDomain × Option ℕ
unfolding acquire_first_free note_busy
claim_from zero d word = (d, none)
claim_from (suc k) d word =
    let (w, bit) = acquire_first_free (d.idle_cpus word) in
    let later = claim_from k d (suc word) in
    if bit == bits_per_word then later else (
      note_busy (record d { idle_cpus = put d.idle_cpus word w }) (word * bits_per_word + bit),
      some (d.slots (word * bits_per_word + bit)).cpu,
    )

unfoldable pub claim_idle_cpu : NumaDomain → NumaDomain × Option ℕ
unfolding claim_from
claim_idle_cpu d = claim_from d.words d 0

unfoldable pub set_overloaded : NumaDomain → ℕ → Bool → NumaDomain
set_overloaded d slot on = record d {
  overloaded = put d.overloaded (word_of slot) (put (d.overloaded (word_of slot)) (bit_of slot) on);
}

unfoldable pub cpu_at : NumaDomain → ℕ → ℕ
cpu_at d slot = (d.slots slot).cpu

-- No bit of the word is set.
unfoldable pub is_full : BmiWord → Bool
unfolding lowest_set
is_full w = elim (lowest_set bits_per_word w 0) [ none ↦ true | some bit ↦ false ]

-- The new word, and the old one.
unfoldable pub reset : BmiWord → BmiWord → BmiWord × BmiWord
reset w mask = (mask, w)
