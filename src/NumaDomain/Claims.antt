-- ===== src/NumaDomain/Claims.antt =====
-- kernel/src/sched/numa_domain.cpp: claims of CPUs and the busy counts of cores.
use erebus.Base.{
  ℕ, ◌/◌, ◌%◌, ◌^◌, ◌<◌, Bool, true, false, ◌==◌, if◌then◌else◌, add32, sub32, arith, ◌≡◌, refl,
  sym, subst, ap, ◌∙◌, inl, inr, Bool-cases, ==_self,
}
use erebus.NumaDomain.{
  NumaDomain, put, mark_idle, claim_cpu, note_idle, note_busy, is_idle_cpu, set_idle_cpu, set_busy,
}

-- The busy CPUs of the core of a slot.
abbrev pub busy_at : NumaDomain → ℕ → ℕ
busy_at d slot = (d.cores (d.slots slot).core).busy

busy-set : (d : NumaDomain) (core n : ℕ) → ((set_busy d core n).cores core).busy ≡ n
busy-set d core n = rw (==_self core) refl

put_self : {A : Type 0} (f : ℕ → A) (i : ℕ) (a : A) → put f i a i ≡ a
put_self f i a = rw (==_self i) refl

put_bit : (f : ℕ → ℕ → Bool) (i j : ℕ) (b : Bool) → put f i (put (f i) j b) i j ≡ b
put_bit f i j b = rw (put_self f i (put (f i) j b)) (put_self (f i) j b)

note_busy_lem :
    (d : NumaDomain) (slot : ℕ)
    → ((note_busy d slot).idle_cpus ≡ d.idle_cpus)
      × (busy_at (note_busy d slot) slot ≡ add32 (busy_at d slot) 1)
unfolding note_busy
note_busy_lem d slot = elim (Bool-cases (busy_at d slot == 0)) [
  | inl e ↦ simp (e, note_busy) (refl, busy-set d (d.slots slot).core (add32 (busy_at d slot) 1))
  | inr e ↦ simp (e, note_busy) (refl, busy-set d (d.slots slot).core (add32 (busy_at d slot) 1))
]

-- A claim succeeds exactly on an idle CPU. The CPU is not idle afterwards, and one more CPU of its
-- core is busy if the claim succeeded, no more than before if it did not.
pub claim_cpu_lem :
    (d : NumaDomain) (slot : ℕ)
    → ((claim_cpu d slot).1 ≡ is_idle_cpu d slot)
      × (is_idle_cpu (claim_cpu d slot).0 slot ≡ false)
      × (busy_at (claim_cpu d slot).0 slot
          ≡ (if is_idle_cpu d slot then add32 (busy_at d slot) 1 else busy_at d slot))
unfolding claim_cpu
claim_cpu_lem d slot = elim (Bool-cases (is_idle_cpu d slot)) [
  | inl e ↦
      let n = note_busy_lem (set_idle_cpu d slot false) slot in
      simp (e, claim_cpu)
        (
          refl,
          subst (λ (x : ℕ → ℕ → Bool). x (slot / 64) (slot % 64) ≡ false) (sym n.0)
              (put_bit d.idle_cpus (slot / 64) (slot % 64) false),
          n.1,
        )
  | inr e ↦ simp (e, claim_cpu) (refl, put_bit d.idle_cpus (slot / 64) (slot % 64) false, refl)
]

note_idle_lem :
    (d : NumaDomain) (slot : ℕ)
    → ((note_idle d (d.slots slot).core).idle_cpus ≡ d.idle_cpus)
      × (busy_at (note_idle d (d.slots slot).core) slot ≡ sub32 (busy_at d slot) 1)
      × ((note_idle d (d.slots slot).core).slots ≡ d.slots)
unfolding note_idle
note_idle_lem d slot = elim (Bool-cases (busy_at d slot == 1)) [
  | inl e ↦
      simp (e, note_idle) (refl, busy-set d (d.slots slot).core (sub32 (busy_at d slot) 1), refl)
  | inr e ↦
      simp (e, note_idle) (refl, busy-set d (d.slots slot).core (sub32 (busy_at d slot) 1), refl)
]

back : (b : ℕ) → 0 < b → b < 2 ^ 32 → add32 (sub32 b 1) 1 ≡ b
back b h k = omega arith

-- A busy CPU that is listed as idle can be claimed, and then its core has as many busy CPUs as
-- before: the count is right however the CPU leaves the list.
pub claim_cpu-mark_idle :
    (d : NumaDomain) (slot : ℕ)
    → is_idle_cpu d slot ≡ false
    → 0 < busy_at d slot
    → busy_at d slot < 2 ^ 32
    → ((claim_cpu (mark_idle d slot) slot).1 ≡ true)
      × (is_idle_cpu (claim_cpu (mark_idle d slot) slot).0 slot ≡ false)
      × (busy_at (claim_cpu (mark_idle d slot) slot).0 slot ≡ busy_at d slot)
unfolding mark_idle
claim_cpu-mark_idle d slot h pos small =
    let n = note_idle_lem (set_idle_cpu d slot true) slot in
    let m : mark_idle d slot ≡ note_idle (set_idle_cpu d slot true) (d.slots slot).core =
      simp (h, mark_idle) refl in
    let i : is_idle_cpu (mark_idle d slot) slot ≡ true = simp m (
      subst (λ (x : ℕ → ℕ → Bool). x (slot / 64) (slot % 64) ≡ true) (sym n.0)
        (put_bit d.idle_cpus (slot / 64) (slot % 64) true)) in
    let c = claim_cpu_lem (mark_idle d slot) slot in
    let b : busy_at (mark_idle d slot) slot ≡ sub32 (busy_at d slot) 1 =
      subst (λ x. busy_at x slot ≡ sub32 (busy_at d slot) 1) (sym m) n.1 in
    let c2 : busy_at (claim_cpu (mark_idle d slot) slot).0 slot
        ≡ add32 (busy_at (mark_idle d slot) slot) 1 =
      c.2 ∙ rw i refl in
    (c.0 ∙ i, c.1, c2 ∙ ap (λ x. add32 x 1) b ∙ back (busy_at d slot) pos small)
