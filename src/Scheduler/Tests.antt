-- ===== src/Scheduler/Tests.antt =====
-- kernel/src/sched/scheduler.cpp: a thread that is enqueued, picked, blocks and leaves its CPU while a
-- waker has looked at its CPU already.
use erebus.Base.{◌≤◌, true, false, refl, arith}
use erebus.Base.Family.{put, total}
use erebus.RunQueue.{running, blocked}
use erebus.Scheduler.{
  away, offering, handing, looking, looked, placing_at, System, work, run, Reach, start, later,
  offer, hand, target_new, enqueue, wake, look, pick, prepare_to_block, block, seen, see,
  cancel_block, exit_current, catch,
}
use erebus.Scheduler.Places.{places, is_live}
use erebus.Scheduler.Safety.{places-IsUnique}
use erebus.Scheduler.Liveness.{RunsLater, Reach-RunsLater}

-- Two CPUs and two workers.
abbrev asleep : System
asleep = record {
  thread = record {
    state = blocked;
    cpu_id = 1;
    scheduled = true;
    current = put (put (λ c. false) 1 true) 1 false;
    queued = put (put (λ c. 0) 1 1) 1 0;
  };
  workers =
      put
        (put (put (put (put (put (λ i. away) 0 offering) 0 handing) 0 (placing_at 1)) 0 away) 1
          looking)
        1 (looked 1);
}

asleep-Reach : Reach 2 2 asleep
unfolding total
asleep-Reach =
    later
      (later
        (later
          (later
            (later
              (later
                (later
                  (later (later (start 0) (work 0 (omega arith) (offer refl)))
                    (work 0 (omega arith) (hand refl)))
                  (work 0 (omega arith) (target_new {d = 1} (omega arith))))
                (work 0 (omega arith) (enqueue (omega arith) refl)))
              (run (pick {c = 1} (omega arith) refl refl (omega arith))))
            (run (prepare_to_block {c = 1} (omega arith) refl (λ e. cc))))
          (work 1 (omega arith) wake))
        (work 1 (omega arith) look))
      (run (block {c = 1} (omega arith) refl refl (λ e. cc)))

-- A waker reads that the thread is blocked; the thread takes the block back and exits, and only then
-- the waker sets the state, over the Dead one.
abbrev exited : System
exited = record {
  thread = record {
    state = running;
    cpu_id = 1;
    scheduled = true;
    current = put (λ c. false) 1 true;
    queued = put (put (λ c. 0) 1 1) 1 0;
  };
  workers =
      put
        (put
          (put
            (put (put (put (put (put (λ i. away) 0 offering) 0 handing) 0 (placing_at 1)) 0 away) 1
              looking)
            1 (looked 1))
          1 (seen 1))
        1 away;
}

exited-Reach : Reach 2 2 exited
unfolding total
exited-Reach =
    later
      (later
        (later
          (later
            (later
              (later
                (later
                  (later
                    (later
                      (later
                        (later (later (start 0) (work 0 (omega arith) (offer refl)))
                          (work 0 (omega arith) (hand refl)))
                        (work 0 (omega arith) (target_new {d = 1} (omega arith))))
                      (work 0 (omega arith) (enqueue (omega arith) refl)))
                    (run (pick {c = 1} (omega arith) refl refl (omega arith))))
                  (run (prepare_to_block {c = 1} (omega arith) refl (λ e. cc))))
                (work 1 (omega arith) wake))
              (work 1 (omega arith) look))
            (work 1 (omega arith) (see refl refl refl)))
          (run (cancel_block {c = 1} (omega arith) refl (λ e. cc))))
        (run (exit_current {c = 1} (omega arith) refl)))
      (work 1 (omega arith) (catch refl))

places-IsUnique_example :
    (places 2 2 asleep.thread asleep.workers ≤ 1)
    × (is_live asleep.thread ≤ places 2 2 asleep.thread asleep.workers)
places-IsUnique_example = places-IsUnique asleep-Reach

Reach-RunsLater_example : RunsLater 2 2 asleep
Reach-RunsLater_example = Reach-RunsLater 0 (omega arith) asleep-Reach (omega arith) refl refl
