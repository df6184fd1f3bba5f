-- ===== src/Scheduler/Safety.antt =====
-- kernel/src/sched/scheduler.cpp: a thread is in one place, and not lost while it is ready.
use erebus.Base.{ℕ, ◌≤◌, false, refl, arith}
use erebus.Base.Family.{total_all_zero}
use erebus.Scheduler.{away, System, Step, work, run, Reach, start, later, start_system}
use erebus.Scheduler.Places.{flag, count, hands, sees_any, places, is_live, Inv}
use erebus.Scheduler.Moves.{Run-Inv}
use erebus.Scheduler.Workers.{Work-Inv}

pub Step-Inv :
    {m n : ℕ} {s t : System}
    → Step m n s t
    → Inv m n s.thread s.workers
    → Inv m n t.thread t.workers
Step-Inv (work i lt mv) inv = Work-Inv i inv lt refl mv
Step-Inv (run mv) inv = Run-Inv inv mv

start-Inv : (m n cpu : ℕ) → Inv m n (start_system cpu).thread (start_system cpu).workers
start-Inv m n cpu =
    let r = total_all_zero flag m (λ c. false) (λ c l. refl) in
    let w = total_all_zero count m (λ c. 0) (λ c l. refl) in
    let h = total_all_zero hands n (λ i. away) (λ i l. refl) in
    let s = total_all_zero sees_any n (λ i. away) (λ i l. refl) in
    record {
      one = omega arith;
      somewhere = omega arith;
      waiting = omega arith;
      new = λ f. (omega arith, refl);
      inside = λ c e. absurd (ground arith);
      here = λ c e. absurd (ground arith);
      acting = λ c e. absurd (ground arith);
      handed = λ i l q. refl;
      one_seer = omega arith;
      seer = λ i c l q. absurd (ground arith);
      asleep = λ i c l q. absurd (ground arith);
    }

pub Reach-Inv : {m n : ℕ} {s : System} → Reach m n s → Inv m n s.thread s.workers
Reach-Inv (start cpu) = start-Inv _ _ cpu
Reach-Inv (later r st) = Step-Inv st (Reach-Inv r)

-- In every state that is reached from a new thread, however its own steps, the switches of the CPUs,
-- and any number of wakers, of callers of `enqueue` and of thieves interleave: the CPUs that run the
-- thread, the times it waits on a queue and the callers that are about to queue it are one at most
-- together, and exactly one if the scheduler has the thread and its state is Ready or Running.
pub places-IsUnique :
    {m n : ℕ} {s : System}
    → Reach m n s
    → (places m n s.thread s.workers ≤ 1) × (is_live s.thread ≤ places m n s.thread s.workers)
places-IsUnique r = let inv = Reach-Inv r in (inv.one, inv.somewhere)
