-- ===== src/RunQueue/Pick/Rank.antt =====
-- kernel/src/sched/runqueue.cpp: the rank of the thread that is picked.
use erebus.Base.{
  ℕ, ◌≤◌, ◌<◌, Bool, true, false, not, ◌&&◌, ◌||◌, Option, none, some, List, [], ◌∷◌, ltb, ◌==◌,
  if◌then◌else◌, arith, ◌≡◌, refl, sym, ap, subst, ◌∙◌, inl, inr, Bool-cases, Option-cases, lt→ltb,
  not_ltb→le, ==→eq, not_==→ne,
}
use erebus.Eevdf.{EevdfQueue, is_current, yield_current}
use erebus.RunQueue.{RunQueue, RtFifo, PickMode, rt_levels, rt_level, highest_rt_level, is_nil}
use erebus.RunQueue.Pick.{
  is_preempted, is_yield, is_runnable, retire_prev, leave_cpu, run_realtime, choose,
  requeue_realtime, requeue_current_fair, pick_next_locked,
}
use erebus.RunQueue.Pick.Order.{
  IsAt, IsLevelled, Picks, Same, Becomes, run_realtime_lem, requeued-IsAt,
  requeue_current_fair-Same, leave_cpu-Same,
}

Picks-if :
    (q : RunQueue) (top : ℕ) (b : Bool) (x y : Option (RunQueue × ℕ))
    → (b ≡ true → Picks q top x)
    → (b ≡ false → Picks q top y)
    → Picks q top (if b then x else y)
Picks-if q top true x y h k = h refl
Picks-if q top false x y h k = k refl

not_nil : (b : Bool) → not b ≡ true → b ≡ false
not_nil true h = absurd (let k : false ≡ true = h in cc)
not_nil false h = refl

-- The highest level has a thread.
highest_waiting :
    (q : RunQueue)
    → highest_rt_level q < rt_levels
    → is_nil (q.realtime (highest_rt_level q)).list ≡ false
unfolding highest_rt_level
highest_waiting q h = elim (Bool-cases (not (is_nil (q.realtime 0).list))) [
  | inl e ↦ rw (e, highest_rt_level) (not_nil (is_nil (q.realtime 0).list) e)
  | inr e ↦ elim (Bool-cases (not (is_nil (q.realtime 1).list))) [
    | inl f ↦ rw (e, f, highest_rt_level) (not_nil (is_nil (q.realtime 1).list) f)
    | inr f ↦ absurd (let k : 2 < rt_levels = simp (e, f, highest_rt_level) at h in omega arith)
  ]
]

requeued_fair :
    (q : RunQueue) (prev : ℕ) (r : Option RunQueue)
    → Becomes q r
    → IsLevelled q
    → highest_rt_level q < rt_levels
    → Picks q
        (highest_rt_level q)
        (elim r [ none ↦ none | some q' ↦ run_realtime q' (highest_rt_level q) prev ])
requeued_fair q prev none b l h = absurd b
requeued_fair q prev (some q') b l h =
    run_realtime_lem q q' (highest_rt_level q) prev
      (subst (λ r. IsAt q (highest_rt_level q) (r (highest_rt_level q)).list) (sym b.0)
        (l (highest_rt_level q)))
      (subst (λ r. is_nil (r (highest_rt_level q)).list ≡ false) (sym b.0) (highest_waiting q h))

and_not : (a b : Bool) → (a && not (true || b)) ≡ true → ⊥
and_not true b h = absurd (let k : false ≡ true = h in cc)
and_not false b h = absurd (let k : false ≡ true = h in cc)

stay_rank :
    (q : RunQueue) (prev top : ℕ) (a b : Bool)
    → (a && not (ltb top (rt_level q prev) || b)) ≡ true
    → rt_level q prev ≤ top
stay_rank q prev top a b h = elim (Bool-cases (ltb top (rt_level q prev))) [
  | inl e ↦ absurd (and_not a b (simp e at h))
  | inr e ↦ not_ltb→le top (rt_level q prev) e
]

choose_lem :
    (q : RunQueue) (prev : ℕ) (mode : PickMode) (runnable prev_fair : Bool)
    → IsLevelled q
    → highest_rt_level q < rt_levels
    → ((runnable && prev_fair) ≡ true → is_current q.fair prev ≡ true)
    → Picks q (highest_rt_level q) (choose q prev mode runnable prev_fair)
unfolding choose
choose_lem q prev mode runnable prev_fair l h c =
    let w = highest_waiting q h in
    let g = lt→ltb (highest_rt_level q) rt_levels h in
    simp (g, choose)
      (Picks-if q (highest_rt_level q)
        (runnable
          && ltb (rt_level q prev) rt_levels
          && not (
              ltb (highest_rt_level q) (rt_level q prev)
              || highest_rt_level q == rt_level q prev && is_yield mode))
        (some (q, prev))
        (if runnable && ltb (rt_level q prev) rt_levels
          then run_realtime (requeue_realtime q prev (is_preempted mode)) (highest_rt_level q) prev
          else if runnable && prev_fair
          then elim (requeue_current_fair q) [
            | none ↦ none
            | some q' ↦ run_realtime q' (highest_rt_level q) prev
          ]
          else run_realtime q (highest_rt_level q) prev)
        (λ e.
          stay_rank q prev (highest_rt_level q) (runnable && ltb (rt_level q prev) rt_levels)
            (highest_rt_level q == rt_level q prev && is_yield mode) e)
        (λ e.
          Picks-if q (highest_rt_level q) (runnable && ltb (rt_level q prev) rt_levels)
            (run_realtime (requeue_realtime q prev (is_preempted mode)) (highest_rt_level q) prev)
            (if runnable && prev_fair
              then elim (requeue_current_fair q) [
                | none ↦ none
                | some q' ↦ run_realtime q' (highest_rt_level q) prev
              ]
              else run_realtime q (highest_rt_level q) prev)
            (λ r.
              (let a =
                  requeued-IsAt q prev (highest_rt_level q) (is_preempted mode)
                    (l (highest_rt_level q)) in
                run_realtime_lem q (requeue_realtime q prev (is_preempted mode))
                  (highest_rt_level q) prev a.0 (a.1 w)))
            (λ r.
              Picks-if q (highest_rt_level q) (runnable && prev_fair)
                (elim (requeue_current_fair q) [
                  | none ↦ none
                  | some q' ↦ run_realtime q' (highest_rt_level q) prev
                ])
                (run_realtime q (highest_rt_level q) prev)
                (λ f.
                  requeued_fair q prev (requeue_current_fair q)
                    (requeue_current_fair-Same q prev (c f)) l h)
                (λ f. run_realtime_lem q q (highest_rt_level q) prev (l (highest_rt_level q)) w))))

-- A thread that stays runnable stays the current one of the fair queue, if it was.
abbrev Stays : RunQueue → ℕ → Option RunQueue → Type 0
Stays q prev none = ⊥
Stays q prev (some q') = is_current q.fair prev ≡ true → is_current q'.fair prev ≡ true

yield_current-Stays :
    (f : EevdfQueue) (prev : ℕ)
    → is_current f prev ≡ true
    → is_current (yield_current f) prev ≡ true
unfolding yield_current is_current
yield_current-Stays f prev h = elim (Option-cases f.current) [
  | inl e ↦ simp (e, yield_current, is_current) (simp (e, is_current) at h)
  | inr (c, e) ↦ simp (e, yield_current, is_current) (simp (e, is_current) at h)
]

Stays-if :
    (q : RunQueue) (prev : ℕ) (b : Bool) (x y : Option RunQueue)
    → (b ≡ true → Stays q prev x)
    → (b ≡ false → Stays q prev y)
    → Stays q prev (if b then x else y)
Stays-if q prev true x y h k = h refl
Stays-if q prev false x y h k = k refl

not_both : (a r : Bool) → (a && not r) ≡ true → r ≡ true → ⊥
not_both true true h k = absurd (let l : false ≡ true = h in cc)
not_both true false h k = absurd (let l : false ≡ true = k in cc)
not_both false r h k = absurd (let l : false ≡ true = h in cc)

leave_cpu-Stays :
    (q : RunQueue) (prev : ℕ) (mode : PickMode)
    → is_runnable q prev mode ≡ true
    → Stays q prev (leave_cpu q prev mode)
unfolding leave_cpu
leave_cpu-Stays q prev mode r =
    Stays-if q prev (not (q.threads prev).is_idle && not (is_runnable q prev mode))
      (retire_prev q prev)
      (if is_current q.fair prev && is_yield mode
        then some (record q { fair = yield_current q.fair })
        else some q)
      (λ e. absurd (not_both (not (q.threads prev).is_idle) (is_runnable q prev mode) e r))
      (λ e.
        Stays-if q prev (is_current q.fair prev && is_yield mode)
          (some (record q { fair = yield_current q.fair })) (some q)
          (λ f. yield_current-Stays q.fair prev) (λ f h. h))

module _ (q q' : RunQueue) (same : Same q q') where
  same_highest : highest_rt_level q' ≡ highest_rt_level q
  unfolding highest_rt_level
  same_highest =
      ap
        (λ (r : ℕ → RtFifo).
          if not (is_nil (r 0).list) then 0 else if not (is_nil (r 1).list) then 1 else rt_levels)
        same.0

  IsAt-same : (level : ℕ) (xs : List ℕ) → IsAt q level xs → IsAt q' level xs
  IsAt-same level [] h = tt
  IsAt-same level (x ∷ xs) h = (same.1 x ∙ h.0, IsAt-same level xs h.1)

  IsLevelled-same : IsLevelled q → IsLevelled q'
  IsLevelled-same l level =
      subst (λ r. IsAt q' level (r level).list) (sym same.0)
        (IsAt-same level (q.realtime level).list (l level))

  Picks-same :
      (r : Option (RunQueue × ℕ))
      → Picks q' (highest_rt_level q') r
      → Picks q (highest_rt_level q) r
  Picks-same none h = h
  Picks-same (some (q'', next)) h =
      let e = same.1 next in let f = same_highest in omega (arith, h, e, f)

and_true : (a b : Bool) → (a && b) ≡ true → (a ≡ true) × (b ≡ true)
and_true true b h = (refl, h)
and_true false b h = absurd (let l : false ≡ true = h in cc)

picked :
    (q : RunQueue) (prev : ℕ) (mode : PickMode) (r : Option RunQueue)
    → Becomes q r
    → (is_runnable q prev mode ≡ true → Stays q prev r)
    → IsLevelled q
    → highest_rt_level q < rt_levels
    → Picks q (highest_rt_level q) (elim r [
      | none ↦ none
      | some q' ↦ choose q' prev mode (is_runnable q prev mode) (is_current q.fair prev)
    ])
picked q prev mode none b s l h = b
picked q prev mode (some q') b s l h =
    Picks-same q q' b (choose q' prev mode (is_runnable q prev mode) (is_current q.fair prev)) (
      choose_lem q' prev mode (is_runnable q prev mode) (is_current q.fair prev)
        (IsLevelled-same q q' b l) (let e = same_highest q q' b in omega (arith, e, h))
        (λ c. (let k = and_true (is_runnable q prev mode) (is_current q.fair prev) c in s k.0 k.1)))

highest-le :
    (q : RunQueue) (level : ℕ)
    → level < rt_levels
    → is_nil (q.realtime level).list ≡ false
    → highest_rt_level q ≤ level
unfolding highest_rt_level
highest-le q level h w = elim (Bool-cases (not (is_nil (q.realtime 0).list))) [
  | inl e ↦ rw (e, highest_rt_level) (omega arith)
  | inr e ↦ elim (Bool-cases (level == 0)) [
    | inl z ↦ absurd (
        let k : is_nil (q.realtime 0).list ≡ false =
          subst (λ n. is_nil (q.realtime n).list ≡ false) (==→eq level 0 z) w in
        let l : not (is_nil (q.realtime 0).list) ≡ true = rw k refl in
        let m : false ≡ true = cc in cc)
    | inr z ↦
        let n = not_==→ne level 0 z in
        elim (Bool-cases (not (is_nil (q.realtime 1).list))) [
          | inl f ↦ rw (e, f, highest_rt_level) (omega arith)
          | inr f ↦ absurd (
              let o : level ≡ 1 = omega arith in
              let k : is_nil (q.realtime 1).list ≡ false =
                subst (λ n. is_nil (q.realtime n).list ≡ false) o w in
              let l : not (is_nil (q.realtime 1).list) ≡ true = rw k refl in
              let m : false ≡ true = cc in cc)
        ]
  ]
]

Picks-weaken :
    (q : RunQueue) (top level : ℕ) (r : Option (RunQueue × ℕ))
    → top ≤ level
    → Picks q top r
    → Picks q level r
Picks-weaken q top level none h k = k
Picks-weaken q top level (some (q', next)) h k = omega arith

-- While a real-time thread waits, a thread is picked, whatever the reason for the switch, and its
-- level is no lower in rank than that of any real-time thread that waits. The threads of each FIFO
-- are to be of its level.
pub pick_next_locked-Picks :
    (q : RunQueue) (prev : ℕ) (mode : PickMode) (level : ℕ)
    → IsLevelled q
    → level < rt_levels
    → is_nil (q.realtime level).list ≡ false
    → Picks q level (pick_next_locked q prev mode)
unfolding pick_next_locked
pick_next_locked-Picks q prev mode level l h w =
    let le = highest-le q level h w in
    Picks-weaken q (highest_rt_level q) level (pick_next_locked q prev mode) le (
      picked q prev mode (leave_cpu q prev mode) (leave_cpu-Same q prev mode)
        (leave_cpu-Stays q prev mode) l (omega arith))
