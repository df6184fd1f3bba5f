-- ===== src/Scheduler/Liveness.antt =====
-- kernel/src/sched/scheduler.cpp: a thread that blocked runs again once it is woken.
use erebus.Base.{
  ℕ, ◌+◌, ◌<◌, true, false, ◌==◌, ◌≡◌, refl, sym, subst, inl, inr, arith, Bool-cases, ltb, ltb→lt,
  not_ltb→le,
}
use erebus.Base.Family.{put, total, term-le, total_all_zero, total_pos}
use erebus.RunQueue.{ready, running}
use erebus.Scheduler.{
  ThreadView, Worker, away, looking, placing, looked, seen, placing_at, can_wake, put_state,
  set_cpu_id, enqueue_on, switch_to, sees, Work, System, Step, work, run, Reach, target, enqueue,
  wake, look, see, catch, revive, pick, IsFree,
}
use erebus.Scheduler.Places.{count, hands, sees_any, waits, held, Inv}
use erebus.Scheduler.Moves.{no_seer_waiting, not_current}
use erebus.Scheduler.Workers.{Work-Inv, Seen-cases}
use erebus.Scheduler.Safety.{Reach-Inv}

-- A step that is not the thread's own: one of a worker, or a CPU that picks the thread.
pub data Help (m n : ℕ) (s : System) : System → Type 0 where
  by_worker :
      (i : ℕ) {t : ThreadView} {p : Worker}
      → i < n
      → Work m (IsFree n s.workers) s.thread (s.workers i) t p
      → Help m n s (record { thread = t; workers = put s.workers i p })
  by_pick :
      (c : ℕ)
      → c < m
      → IsFree n s.workers c
      → s.thread.current c ≡ false
      → 0 < s.thread.queued c
      → Help m n s (record s { thread = switch_to s.thread c })

pub data Steps (m n : ℕ) : System → System → Type 0 where
  done : {s : System} → Steps m n s s
  next : {s t u : System} → Help m n s t → Steps m n t u → Steps m n s u

-- A help is a step of the system.
pub Help-Step : {m n : ℕ} {s t : System} → Help m n s t → Step m n s t
Help-Step (by_worker i lt mv) = work i lt mv
Help-Step (by_pick c lt free off pos) = run (pick lt free off pos)

-- A schedule leads to a state in which a CPU runs the thread.
abbrev pub RunsLater : ℕ → ℕ → System → Type 0
RunsLater m n s =
    (t : System) × Steps m n s t
    × (c : ℕ) × (t.thread.current c ≡ true)
    × (t.thread.state ≡ running)

put_same : {A : Type 0} (f : ℕ → A) (i : ℕ) (a : A) → put f i a i ≡ a
put_same f i a = ground arith

unseen : (d : ℕ) (p : Worker) → sees_any p ≡ 0 → sees d p ≡ 0
unseen d p z = ground arith

still_unseen :
    (w : ℕ → Worker) (i j d c : ℕ)
    → sees_any (w j) ≡ 0
    → sees d (put (put w i looking) i (looked c) j) ≡ 0
still_unseen w i j d c z = elim (Bool-cases (i == j)) [
  | inl e ↦ rw e refl
  | inr e ↦ rw e (unseen d (w j) z)
]

module _ {m n : ℕ} where
  waiting-IsFree :
      {s : System}
      → Inv m n s.thread s.workers
      → 0 < waits m s.thread + held n s.workers
      → (d : ℕ) → IsFree n s.workers d
  waiting-IsFree {s = s} inv pos d = total_all_zero (sees d) n s.workers (λ j l.
      elim (Seen-cases (s.workers j)) [
        | inl z ↦ unseen d (s.workers j) z
        | inr (k, q) ↦ absurd (no_seer_waiting inv pos j k l q)
      ])

  led_by :
      {s : System} {t : ThreadView} {p p' : Worker} (i : ℕ)
      → i < n
      → s.workers i ≡ p
      → Work m (IsFree n s.workers) s.thread p t p'
      → RunsLater m n (record { thread = t; workers = put s.workers i p' })
      → RunsLater m n s
  led_by {s = s} {t = t} {p = p} {p' = p'} i lt e mv (u, path, c, f, r) = (
    u,
    next (by_worker i lt (subst (λ q. Work m (IsFree n s.workers) s.thread q t p') (sym e) mv))
        path,
    c,
    f,
    r,
  )

  picked-RunsLater :
      (s : System)
      → Inv m n s.thread s.workers
      → (c : ℕ) → c < m
      → 0 < s.thread.queued c
      → RunsLater m n s
  picked-RunsLater s inv c lt pos =
      let le = term-le count m s.thread.queued c lt in
      let free = waiting-IsFree {s = s} inv (omega arith) c in
      (
        _,
        next (by_pick c lt free (not_current inv (omega arith) c) pos) done,
        c,
        put_same s.thread.current c true,
        refl,
      )

  -- A worker that is about to queue the thread, on a CPU that it chose.
  queued-RunsLater :
      (s : System) (i c : ℕ)
      → Inv m n s.thread s.workers
      → i < n
      → s.workers i ≡ placing_at c
      → c < m
      → RunsLater m n s
  queued-RunsLater s i c inv lt e l_c =
      let le = term-le hands n s.workers i lt in
      let held_one : 0 < held n s.workers = ground arith in
      let mv : Work m (IsFree n s.workers) s.thread (placing_at c) (enqueue_on s.thread c) away =
        enqueue l_c (waiting-IsFree {s = s} inv (omega arith) c) in
      led_by i lt e mv (picked-RunsLater _ (Work-Inv i inv lt e mv) c l_c (ground arith))

  placed-RunsLater :
      (s : System) (i : ℕ)
      → 0 < m
      → Inv m n s.thread s.workers
      → i < n
      → s.workers i ≡ placing
      → RunsLater m n s
  placed-RunsLater s i some_cpu inv lt e =
      let mv : Work m (IsFree n s.workers) s.thread placing (set_cpu_id s.thread 0) (placing_at 0) =
        target some_cpu in
      led_by i lt e mv (
        queued-RunsLater _ i 0 (Work-Inv i inv lt e mv) lt (put_same s.workers i (placing_at 0))
          some_cpu)

  seen-RunsLater :
      (s : System) (i c : ℕ)
      → 0 < m
      → Inv m n s.thread s.workers
      → i < n
      → s.workers i ≡ seen c
      → RunsLater m n s
  seen-RunsLater s i c some_cpu inv lt e = elim (Bool-cases (s.thread.current c)) [
    | inl f ↦ led_by i lt e (catch f) (_, done, c, f, refl)
    | inr f ↦
        let mv : Work m (IsFree n s.workers) s.thread (seen c) (put_state s.thread ready) placing =
          revive f in
        led_by i lt e mv
          (placed-RunsLater _ i some_cpu (Work-Inv i inv lt e mv) lt (put_same s.workers i placing))
  ]

  called-RunsLater :
      (s : System) (i : ℕ)
      → 0 < m
      → Inv m n s.thread s.workers
      → i < n
      → s.workers i ≡ away
      → can_wake s.thread.state ≡ true
      → total sees_any n s.workers ≡ 0
      → RunsLater m n s
  called-RunsLater s i some_cpu inv lt e w z =
      let c = s.thread.cpu_id in
      let a : Work m (IsFree n s.workers) s.thread away s.thread looking = wake in
      let s_a : System = record s { workers = put s.workers i looking } in
      let inv_a = Work-Inv i inv lt e a in
      let e_a = put_same s.workers i looking in
      let b : Work m (IsFree n s_a.workers) s.thread looking s.thread (looked c) = look in
      let s_b : System = record s { workers = put s_a.workers i (looked c) } in
      let inv_b = Work-Inv i inv_a lt e_a b in
      let e_b = put_same s_a.workers i (looked c) in
      let free = total_all_zero (sees c) n s_b.workers (λ j l.
        still_unseen s.workers i j c c (let k = term-le sees_any n s.workers j l in omega arith)) in
      let d : Work m (IsFree n s_b.workers) s.thread (looked c) s.thread (seen c) =
        see free refl w in
      let inv_c = Work-Inv i inv_b lt e_b d in
      led_by i lt e a (
        led_by i lt e_a b (
          led_by i lt e_b d (
            seen-RunsLater (record s { workers = put s_b.workers i (seen c) }) i c some_cpu inv_c lt
              (put_same s_b.workers i (seen c)))))

-- Given a CPU, from every reached state in which the thread is blocked or sleeps, on its CPU still or
-- off it, and in which a worker is free to call `wake`, some schedule ends with a CPU on which the
-- thread is and runs, in steps of the workers and of CPUs that pick the thread only: the thread itself
-- takes no step, not even to cancel its block.
pub Reach-RunsLater :
    {m n : ℕ} {s : System} (i : ℕ)
    → 0 < m
    → Reach m n s
    → i < n
    → s.workers i ≡ away
    → can_wake s.thread.state ≡ true
    → RunsLater m n s
Reach-RunsLater {m} {n} {s} i some_cpu r lt e w =
    elim (Bool-cases (ltb 0 (total sees_any n s.workers))) [
      | inr z ↦
          called-RunsLater s i some_cpu (Reach-Inv r) lt e w
            (let k = not_ltb→le _ _ z in omega arith)
      | inl z ↦
          let (j, l, k) = total_pos sees_any n s.workers (ltb→lt _ _ z) in
          elim (Seen-cases (s.workers j)) [
            | inl q ↦ absurd (omega arith)
            | inr (c, q) ↦ seen-RunsLater s j c some_cpu (Reach-Inv r) l q
          ]
    ]
