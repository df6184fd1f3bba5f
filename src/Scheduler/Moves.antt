-- ===== src/Scheduler/Moves.antt =====
-- kernel/src/sched/scheduler.cpp: the steps of the thread and of the switches keep the invariant.
use erebus.Base.{ℕ, ◌+◌, ◌-◌, ◌<◌, true, false, ◌≡◌, ◌≢◌, inl, inr, arith, Bool-cases}
use erebus.Base.Family.{put, total, total-put, term-le}
use erebus.RunQueue.{ThreadState, ready, running, blocked, dead}
use erebus.Scheduler.{
  ThreadView, Worker, handing, seen, put_state, requeue_from, switch_out, switch_to, Run,
  prepare_to_block, cancel_block, exit_current, preempt, outrun, block, pick, IsFree, sees,
}
use erebus.Scheduler.Places.{flag, count, hands, runs, waits, held, Inv}

module _ {m : ℕ} (t : ThreadView) (c : ℕ) (lt : c < m) where
  pub runs_off : t.current c ≡ true → total flag m (put t.current c false) + 1 ≡ runs m t
  runs_off e = ground (arith, total-put flag m t.current c false lt)

  pub runs_on : t.current c ≡ false → total flag m (put t.current c true) ≡ runs m t + 1
  runs_on e = ground (arith, total-put flag m t.current c true lt)

  pub waits_up : total count m (put t.queued c (t.queued c + 1)) ≡ waits m t + 1
  waits_up = ground (arith, total-put count m t.queued c (t.queued c + 1) lt)

  pub waits_down : 0 < t.queued c → total count m (put t.queued c (t.queued c - 1)) + 1 ≡ waits m t
  waits_down pos = ground (arith, total-put count m t.queued c (t.queued c - 1) lt)

  pub running-count : t.current c ≡ true → 0 < runs m t
  running-count e = ground (arith, term-le flag m t.current c lt)

module _ {m n : ℕ} {t : ThreadView} {workers : ℕ → Worker} (inv : Inv m n t workers) where
  open inv use {one, somewhere, waiting, new, inside, here, acting, handed, one_seer, seer, asleep}

  -- A thread that runs has no other place.
  pub alone : (c : ℕ) → t.current c ≡ true → (runs m t ≡ 1) × (waits m t ≡ 0) × (held n workers ≡ 0)
  alone c e =
      let r = running-count t c (inside c e) e in
      (omega (arith, one), omega (arith, one), omega (arith, one))

  -- What the thread does to its state while it runs.
  pub put_state-Inv :
      (c : ℕ) (state : ThreadState)
      → t.current c ≡ true
      → state ≢ ready
      → Inv m n (put_state t state) workers
  put_state-Inv c state e ne =
      let (r, w, h) = alone c e in
      record {
        one = one;
        somewhere = ground (arith);
        waiting = omega arith;
        new = λ f. absurd (omega (arith, (new f).0));
        inside = inside;
        here = here;
        acting = λ d f. ne;
        handed = λ i lt q. absurd (ground (arith, term-le hands n workers i lt));
        one_seer = one_seer;
        seer = seer;
        asleep = λ i d lt q f. absurd (omega (arith, (asleep i d lt q f).0));
      }

  -- Under the lock of the CPU that the thread runs on, no worker has read its state.
  no_seer :
      (c : ℕ) → t.current c ≡ true → IsFree n workers c → (i d : ℕ) → i < n → workers i ≡ seen d → ⊥
  no_seer c e free i d lt q =
      let a = here c e in
      let b = seer i d lt q in
      let same : c ≡ d = omega arith in
      let le = term-le (sees c) n workers i lt in ground (arith, free)

  -- Nor has any while the thread waits or is in a hand.
  pub no_seer_waiting : 0 < waits m t + held n workers → (i d : ℕ) → i < n → workers i ≡ seen d → ⊥
  no_seer_waiting pos i d lt q = elim (Bool-cases (t.current d)) [
    | inl e ↦ let (r, w, h) = alone d e in absurd (omega arith)
    | inr e ↦ absurd (omega (arith, (asleep i d lt q e).0))
  ]

  not_handing : held n workers ≡ 0 → (i : ℕ) → i < n → workers i ≡ handing → ⊥
  not_handing h i lt q = ground (arith, term-le hands n workers i lt)

  -- Off the CPU that it ran on, it runs nowhere.
  requeued_away : (c : ℕ) → t.current c ≡ true → (d : ℕ) → put t.current c false d ≡ true → ⊥
  requeued_away c e d f = let a = here c e in ground (arith, here d)

  requeue_from-Inv :
      (c : ℕ) → t.current c ≡ true → IsFree n workers c → Inv m n (requeue_from t c) workers
  requeue_from-Inv c e free =
      let (r, w, h) = alone c e in
      let off = runs_off t c (inside c e) e in
      let up = waits_up t c (inside c e) in
      record {
        one = omega arith;
        somewhere = ground arith;
        waiting = omega arith;
        new = λ f. absurd (omega (arith, (new f).0));
        inside = λ d f. ground (arith, inside d);
        here = λ d f. ground (arith, here d);
        acting = λ d f. absurd (requeued_away c e d f);
        handed = λ i lt q. absurd (not_handing h i lt q);
        one_seer = one_seer;
        seer = seer;
        asleep = λ i d lt q f. absurd (no_seer c e free i d lt q);
      }

  switch_out-Inv :
      (c : ℕ)
      → t.current c ≡ true
      → IsFree n workers c
      → t.state ≢ running
      → Inv m n (switch_out t c) workers
  switch_out-Inv c e free ne =
      let (r, w, h) = alone c e in
      let off = runs_off t c (inside c e) e in
      record {
        one = omega arith;
        somewhere = ground (arith, acting c e);
        waiting = omega arith;
        new = λ f. absurd (omega (arith, (new f).0));
        inside = λ d f. ground (arith, inside d);
        here = λ d f. ground (arith, here d);
        acting = λ d f. ground (arith, acting d);
        handed = λ i lt q. absurd (not_handing h i lt q);
        one_seer = one_seer;
        seer = seer;
        asleep = λ i d lt q f. absurd (no_seer c e free i d lt q);
      }

  -- A thread that waits does not run.
  pub not_current : 0 < waits m t → (d : ℕ) → t.current d ≡ false
  not_current pos d = elim (Bool-cases (t.current d)) [
    | inl e ↦ let (r, w, h) = alone d e in absurd (omega arith)
    | inr e ↦ e
  ]

  switch_to-Inv : (c : ℕ) → c < m → 0 < t.queued c → Inv m n (switch_to t c) workers
  switch_to-Inv c lt pos =
      let down = waits_down t c lt pos in
      let on = runs_on t c lt (not_current (omega arith) c) in
      record {
        one = omega (arith, one);
        somewhere = ground arith;
        waiting = omega (arith, one);
        new = λ f. absurd (omega (arith, (new f).0));
        inside = λ d f. ground (arith, not_current (omega arith) d);
        here = λ d f. ground (arith, not_current (omega arith) d);
        acting = λ d f g. cc;
        handed = λ i l q. absurd (not_handing (omega (arith, one)) i l q);
        one_seer = one_seer;
        seer = λ i d l q. absurd (no_seer_waiting (omega arith) i d l q);
        asleep = λ i d l q f. absurd (no_seer_waiting (omega arith) i d l q);
      }

  pub Run-Inv : {t' : ThreadView} → Run m (IsFree n workers) t t' → Inv m n t' workers
  Run-Inv (prepare_to_block {c} lt e ne) = put_state-Inv c blocked e (λ q. cc)
  Run-Inv (cancel_block {c} lt e ne) = put_state-Inv c running e (λ q. cc)
  Run-Inv (exit_current {c} lt e) = put_state-Inv c dead e (λ q. cc)
  Run-Inv (preempt {c} lt free e ne) = requeue_from-Inv c e free
  Run-Inv (outrun {c} lt free e q) = requeue_from-Inv c e free
  Run-Inv (block {c} lt free e ne) = switch_out-Inv c e free ne
  Run-Inv (pick {c} lt free e pos) = switch_to-Inv c lt pos
