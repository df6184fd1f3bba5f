-- ===== src/Locks/Tests.antt =====
-- kernel/src/utils/locks/rwlock.cpp: three threads, of which one writes, one waits for its ticket and
-- one reader is about to undo its increment.
use erebus.Base.{ℕ, ◌+◌, ◌≤◌, ◌==◌, ◌≡◌, refl, arith, ◌⊎◌}
use erebus.Base.Family.{put, total}
use erebus.Locks.{
  Pc, System, pick, Reach, start, later, exchange_ticket, idle, entering, bouncing, reading, queued,
  owning, announced, writing, read_lock, enter, bounce, read_unlock, write_lock, own, announce, win,
}
use erebus.Locks.Invariant.{holds, owns, writes, reads, ticket, Holder}
use erebus.Locks.Safety.{writing-IsExclusive, Differ, IsAhead, TriesLock, tickets-IsQueue}
use erebus.Locks.Liveness.{Steps, Finished, IsFree, Reach-Finished}

-- What the three threads do before, by thread: the reader takes the lock, the writer announces
-- itself, the reader leaves and comes back.
abbrev announced_pc : ℕ → Pc
announced_pc =
    put (put (put (put (put (λ i. idle) 0 entering) 0 reading) 1 (queued 0)) 1 owning) 1 announced

abbrev contended : System
contended = record {
  lock = record { rw_state = 257; write_queue = record { now_serving = 0; next_ticket = 2 } };
  pc = put (put (put (put (put announced_pc 0 idle) 1 writing) 2 (queued 1)) 0 entering) 0 bouncing;
}

contended-Reach : Reach 3 contended
contended-Reach =
    later
      (later
        (later
          (later
            (later
              (later
                (later
                  (later
                    (later (later start (pick 0 (omega arith) read_lock))
                      (pick 0 (omega arith) (enter refl)))
                    (pick 1 (omega arith) write_lock))
                  (pick 1 (omega arith) (own refl)))
                (pick 1 (omega arith) announce))
              (pick 0 (omega arith) read_unlock))
            (pick 1 (omega arith) (win refl)))
          (pick 2 (omega arith) write_lock))
        (pick 0 (omega arith) read_lock))
      (pick 0 (omega arith) (bounce (omega arith)))

writing-IsExclusive_example :
    (owns (contended.pc 1) + owns (contended.pc 0) ≤ 1)
    × (writes (contended.pc 1) + reads (contended.pc 0) ≤ 1)
writing-IsExclusive_example =
    writing-IsExclusive 1 0 (omega arith) contended-Reach (omega arith) (omega arith) (omega arith)

tickets-IsQueue_example :
    ((◌≡◌ {A = ℕ} 1 2)
      ⊎ Differ (ticket contended.lock (contended.pc 1)) (ticket contended.lock (contended.pc 2)))
    × IsAhead contended.lock (total holds 3 contended.pc) (ticket contended.lock (contended.pc 1))
    × ((total holds 3 contended.pc ≤ 1) ⊎ Holder 3 contended.lock contended.pc 1)
    × TriesLock contended.lock
        (total holds 3 contended.pc == 0)
        (exchange_ticket contended.lock.write_queue 0)
tickets-IsQueue_example = tickets-IsQueue 1 2 1 (omega arith) contended-Reach

Reach-Finished_example : (t : System) × Steps 3 contended t × Finished 3 t × IsFree t.lock
Reach-Finished_example = Reach-Finished (omega arith) contended-Reach
