-- ===== src/Scheduler/Workers.antt =====
-- kernel/src/sched/scheduler.cpp: the steps of what works on the thread keep the invariant.
use erebus.Base.{ℕ, ◌+◌, ◌<◌, true, false, ◌≡◌, ◌≢◌, refl, subst, ◌⊎◌, inl, inr, arith, Bool-cases}
use erebus.Base.Family.{put, total, total-put, term-le, total_all_zero}
use erebus.RunQueue.{ready, running}
use erebus.Scheduler.{
  ThreadView, Worker, away, offering, handing, placing, looked, seen, placing_at, can_wake,
  put_state, set_scheduled, set_cpu_id, enqueue_on, remove_from, Work, hand, turn_down, target_new,
  target, enqueue, see, catch, revive, steal, IsFree, sees,
}
use erebus.Scheduler.Places.{flag, hands, sees_any, runs, waits, held, places, Inv}
use erebus.Scheduler.Moves.{
  waits_up, waits_down, running-count, alone, no_seer_waiting, put_state-Inv,
}

pub Seen-cases : (p : Worker) → (sees_any p ≡ 0) ⊎ ((d : ℕ) × (p ≡ seen d))
Seen-cases (seen d) = inr (d, refl)
Seen-cases _ = inl (ground arith)

module _ {m n : ℕ} {t : ThreadView} {workers : ℕ → Worker} (inv : Inv m n t workers) (i : ℕ)
    (lt : i < n) where
  open inv use {one, somewhere, waiting, new, inside, here, acting, handed, one_seer, seer, asleep}

  h_hands :
      (p : Worker) → total hands n (put workers i p) + hands (workers i) ≡ held n workers + hands p
  h_hands p = total-put hands n workers i p lt

  h_sees :
      (p : Worker)
      → total sees_any n (put workers i p) + sees_any (workers i)
        ≡ total sees_any n workers + sees_any p
  h_sees p = total-put sees_any n workers i p lt

  -- A worker that has not read the state after its step says nothing new about those that have.
  was_seen :
      (p : Worker) → sees_any p ≡ 0 → (j c : ℕ) → put workers i p j ≡ seen c → workers j ≡ seen c
  was_seen p s j c q = ground arith

  was_handing :
      (p : Worker) → p ≢ handing → (j : ℕ) → put workers i p j ≡ handing → workers j ≡ handing
  was_handing p ne j q = ground arith

  -- A worker that leaves the thread alone and has it in its hand as before.
  passing-Inv :
      (p : Worker)
      → hands p ≡ hands (workers i)
      → sees_any p ≡ 0
      → p ≢ handing
      → Inv m n t (put workers i p)
  passing-Inv p e s ne =
      let h = h_hands p in
      let same : total hands n (put workers i p) ≡ held n workers = omega arith in
      record {
        one = omega (arith, one);
        somewhere = omega (arith, somewhere);
        waiting = omega (arith, waiting);
        new = λ f. let (z, c) = new f in (omega arith, c);
        inside = inside;
        here = here;
        acting = acting;
        handed = λ j l q. handed j l (was_handing p ne j q);
        one_seer = omega (arith, one_seer, h_sees p);
        seer = λ j c l q. seer j c l (was_seen p s j c q);
        asleep = λ j c l q f. let (z, w) = asleep j c l (was_seen p s j c q) f in (omega arith, w);
      }

  -- While the thread is in a hand, it runs nowhere and no state was read.
  in_hand : hands (workers i) ≡ 1 → (held n workers ≡ 1) × (runs m t ≡ 0) × (waits m t ≡ 0)
  in_hand e =
      let le = term-le hands n workers i lt in
      (omega (arith, one), omega (arith, one), omega (arith, one))

  held-not_current : held n workers ≡ 1 → (d : ℕ) → t.current d ≡ false
  held-not_current h d = elim (Bool-cases (t.current d)) [
    | inl e ↦ let (r, w, z) = alone inv d e in absurd (omega arith)
    | inr e ↦ e
  ]

  no_seen :
      0 < waits m t + held n workers
      → (p : Worker) → sees_any p ≡ 0
      → (j c : ℕ) → j < n
      → put workers i p j ≡ seen c
      → ⊥
  no_seen pos p s j c l q = no_seer_waiting inv pos j c l (was_seen p s j c q)

  hand-Inv :
      workers i ≡ offering
      → t.scheduled ≡ false
      → Inv m n (set_scheduled t true) (put workers i handing)
  hand-Inv e f =
      let (z, c) = new f in
      let h : total hands n (put workers i handing) ≡ held n workers + 1 =
        ground (arith, h_hands handing) in
      record {
        one = omega arith;
        somewhere = ground arith;
        waiting = ground arith;
        new = λ g. absurd (ground arith);
        inside = inside;
        here = here;
        acting = acting;
        handed = λ j l q. c;
        one_seer = ground (arith, one_seer, h_sees handing);
        seer = λ j d l q. seer j d l (was_seen handing refl j d q);
        asleep = λ j d l q g.
            absurd (let (a, b) = asleep j d l (was_seen handing refl j d q) g in ground arith);
      }

  turn_down-Inv : workers i ≡ handing → Inv m n (set_scheduled t false) (put workers i away)
  turn_down-Inv e =
      let (h, r, w) = in_hand (ground arith) in
      let c = handed i lt e in
      let z : total hands n (put workers i away) ≡ 0 = ground (arith, h_hands away) in
      record {
        one = omega arith;
        somewhere = ground arith;
        waiting = omega arith;
        new = λ g. (omega arith, c);
        inside = inside;
        here = here;
        acting = acting;
        handed = λ j l q. c;
        one_seer = ground (arith, one_seer, h_sees away);
        seer = λ j d l q. absurd (no_seen (omega arith) away refl j d l q);
        asleep = λ j d l q g. absurd (no_seen (omega arith) away refl j d l q);
      }

  target-Inv :
      (d : ℕ) → hands (workers i) ≡ 1 → Inv m n (set_cpu_id t d) (put workers i (placing_at d))
  target-Inv d e =
      let (h, r, w) = in_hand e in
      let z : total hands n (put workers i (placing_at d)) ≡ 1 =
        ground (arith, h_hands (placing_at d)) in
      record {
        one = omega arith;
        somewhere = omega (arith, somewhere);
        waiting = omega (arith, waiting);
        new = λ g. absurd (omega (arith, (new g).0));
        inside = inside;
        here = λ k g. absurd (let o = held-not_current h k in cc);
        acting = acting;
        handed = λ j l q. handed j l (was_handing (placing_at d) (λ k. cc) j q);
        one_seer = ground (arith, one_seer, h_sees (placing_at d));
        seer = λ j k l q. absurd (no_seen (omega arith) (placing_at d) refl j k l q);
        asleep = λ j k l q g. absurd (no_seen (omega arith) (placing_at d) refl j k l q);
      }

  enqueue-Inv :
      (d : ℕ) → d < m → hands (workers i) ≡ 1 → Inv m n (enqueue_on t d) (put workers i away)
  enqueue-Inv d l_d e =
      let (h, r, w) = in_hand e in
      let z : total hands n (put workers i away) ≡ 0 = ground (arith, h_hands away) in
      let up = waits_up t d l_d in
      record {
        one = omega arith;
        somewhere = ground arith;
        waiting = omega arith;
        new = λ g. absurd (omega (arith, (new g).0));
        inside = inside;
        here = here;
        acting = λ k g. absurd (let o = held-not_current h k in cc);
        handed = λ j l q. absurd (ground (arith, term-le hands n (put workers i away) j l));
        one_seer = ground (arith, one_seer, h_sees away);
        seer = λ j k l q. absurd (no_seen (omega arith) away refl j k l q);
        asleep = λ j k l q g. absurd (no_seen (omega arith) away refl j k l q);
      }

  steal-Inv :
      (c : ℕ)
      → c < m
      → 0 < t.queued c
      → hands (workers i) ≡ 0
      → Inv m n (remove_from t c) (put workers i placing)
  steal-Inv c l_c pos e =
      let down = waits_down t c l_c pos in
      let h : total hands n (put workers i placing) ≡ held n workers + 1 =
        omega (arith, h_hands placing) in
      record {
        one = omega (arith, one);
        somewhere = omega (arith, somewhere);
        waiting = omega (arith, waiting);
        new = λ g. absurd (omega (arith, (new g).0));
        inside = inside;
        here = here;
        acting = acting;
        handed = λ j l q. handed j l (was_handing placing (λ k. cc) j q);
        one_seer = omega (arith, one_seer, h_sees placing);
        seer = λ j k l q. absurd (no_seen (omega arith) placing refl j k l q);
        asleep = λ j k l q g. absurd (no_seen (omega arith) placing refl j k l q);
      }

  revive-Inv :
      (c : ℕ)
      → workers i ≡ seen c
      → t.current c ≡ false
      → Inv m n (put_state t ready) (put workers i placing)
  revive-Inv c e f =
      let (z, w) = asleep i c lt e f in
      let h : total hands n (put workers i placing) ≡ 1 = ground (arith, h_hands placing) in
      let s : total sees_any n (put workers i placing) ≡ 0 =
        ground (arith, one_seer, h_sees placing) in
      record {
        one = omega arith;
        somewhere = ground arith;
        waiting = omega arith;
        new = λ g. absurd (let (a, b) = new g in ground arith);
        inside = inside;
        here = here;
        acting = λ k g. absurd (let le = running-count t k (inside k g) g in omega arith);
        handed = λ j l q.
            absurd (let old = handed j l (was_handing placing (λ k. cc) j q) in ground arith);
        one_seer = omega arith;
        seer = λ j k l q. absurd (ground (arith, term-le sees_any n (put workers i placing) j l));
        asleep =
            λ j k l q g. absurd (ground (arith, term-le sees_any n (put workers i placing) j l));
      }

  catch-Inv :
      (c : ℕ) → workers i ≡ seen c → t.current c ≡ true → Inv m n (put_state t running) workers
  catch-Inv c e f = put_state-Inv inv c running f (λ q. cc)

  -- Under the lock of the CPU that the thread was last on, nobody else has read its state.
  not_seen : (c : ℕ) → IsFree n workers c → t.cpu_id ≡ c → total sees_any n workers ≡ 0
  not_seen c free e = total_all_zero sees_any n workers (λ j l. elim (Seen-cases (workers j)) [
    | inl z ↦ z
    | inr (d, q) ↦
        let other = seer j d l q in
        let same : c ≡ d = omega arith in
        let le = term-le (sees c) n workers j l in absurd (ground (arith, free))
  ])

  -- A thread that could be woken and is not the current one of the CPU it was last on is nowhere.
  pub gone :
      (c : ℕ)
      → t.cpu_id ≡ c
      → can_wake t.state ≡ true
      → t.current c ≡ false
      → places m n t workers ≡ 0
  gone c e w f =
      let r = total_all_zero flag m t.current (λ d l. ground (arith, here d)) in
      ground (arith, waiting)

  see-Inv :
      (c : ℕ)
      → workers i ≡ looked c
      → IsFree n workers c
      → t.cpu_id ≡ c
      → can_wake t.state ≡ true
      → Inv m n t (put workers i (seen c))
  see-Inv c e free f w =
      let z = not_seen c free f in
      let h : total hands n (put workers i (seen c)) ≡ held n workers =
        ground (arith, h_hands (seen c)) in
      record {
        one = omega (arith, one);
        somewhere = omega (arith, somewhere);
        waiting = omega (arith, waiting);
        new = λ g. let (a, b) = new g in (omega arith, b);
        inside = inside;
        here = here;
        acting = acting;
        handed = λ j l q. handed j l (was_handing (seen c) (λ k. cc) j q);
        one_seer = omega (arith, h_sees (seen c));
        seer = λ j k l q. ground (arith, seer j k);
        asleep = λ j k l q g.
            let same = only_seen c z j k l q in
            (omega (arith, gone c f w (subst (λ x. t.current x ≡ false) same g)), w);
      }
    where
      only_seen :
          (c : ℕ)
          → total sees_any n workers ≡ 0
          → (j k : ℕ) → j < n
          → put workers i (seen c) j ≡ seen k
          → k ≡ c
      only_seen c z j k l q = ground (arith, term-le sees_any n workers j l)

pub Work-Inv :
    {m n : ℕ} {t t' : ThreadView} {workers : ℕ → Worker} {p p' : Worker} (i : ℕ)
    → Inv m n t workers
    → i < n
    → workers i ≡ p
    → Work m (IsFree n workers) t p t' p'
    → Inv m n t' (put workers i p')
Work-Inv i inv lt e (hand f) = hand-Inv inv i lt e f
Work-Inv i inv lt e turn_down = turn_down-Inv inv i lt e
Work-Inv i inv lt e (target_new {d} l) = target-Inv inv i lt d (ground arith)
Work-Inv i inv lt e (target {d} l) = target-Inv inv i lt d (ground arith)
Work-Inv i inv lt e (enqueue {d} l free) = enqueue-Inv inv i lt d l (ground arith)
Work-Inv i inv lt e (steal {c} l free pos) = steal-Inv inv i lt c l pos (ground arith)
Work-Inv i inv lt e (revive {c} f) = revive-Inv inv i lt c e f
Work-Inv i inv lt e (catch {c} f) =
    passing-Inv (catch-Inv inv i lt c e f) i lt away (ground arith) refl (λ q. cc)
Work-Inv i inv lt e (see {c} free f w) = see-Inv inv i lt c e free f w
Work-Inv {p' = p'} i inv lt e mv = passing-Inv inv i lt p' (ground arith) (ground arith) (λ q. cc)
