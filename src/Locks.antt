-- ===== src/Locks.antt =====
-- kernel/src/utils/locks/rwlock.cpp, ticket-spinlock.cpp beside it and
-- kernel/include/utils/locks/locks.hpp: a reader-writer lock whose writers queue on a ticket lock.
-- Each atomic access is one step of a thread, and the threads are interleaved in any order. The
-- waits between two loads change nothing and are left out.
pub mod Invariant
pub mod Moves
pub mod Safety
pub mod Liveness
mod Tests
use erebus.Base.{
  ℕ, ◌+◌, ◌-◌, ◌*◌, ◌/◌, ◌%◌, ◌^◌, ◌<◌, Bool, true, false, ◌==◌, if◌then◌else◌, ◌≡◌, ◌≢◌, add32,
  sub32,
}
use erebus.Base.Family.{put}

pub record TicketSpinlock : Type 0 where
  pub now_serving : ℕ
  pub next_ticket : ℕ

-- The compare-exchange of `try_lock`, which `ticket` was loaded for: the lock after it, and whether
-- it was taken.
unfoldable pub exchange_ticket : TicketSpinlock → ℕ → TicketSpinlock × Bool
exchange_ticket l ticket =
    if l.next_ticket == ticket
    then (record l { next_ticket = add32 ticket 1 }, true)
    else (l, false)

pub record RwLock : Type 0 where
  pub rw_state : ℕ
  pub write_queue : TicketSpinlock

abbrev pub writer_locked : ℕ
writer_locked = 1

abbrev pub writer_waiting : ℕ
writer_waiting = 2

abbrev pub reader_inc : ℕ
reader_inc = 2 ^ 8

-- `state & WRITER_MASK`: the two lowest bits.
abbrev pub writer_bits : ℕ → ℕ
writer_bits state = state % 4

-- `fetch_or(WRITER_WAITING)` and `fetch_and(~WRITER_LOCKED)`.
abbrev pub or_waiting : ℕ → ℕ
or_waiting state = if state / 2 % 2 == 0 then state + writer_waiting else state

abbrev pub and_not_locked : ℕ → ℕ
and_not_locked state = state - state % 2

abbrev pub set_state : RwLock → ℕ → RwLock
set_state l state = record l { rw_state = state }

abbrev pub take_ticket : RwLock → RwLock
take_ticket l = record l {
  write_queue = record l.write_queue { next_ticket = add32 l.write_queue.next_ticket 1 };
}

abbrev pub serve : RwLock → ℕ → RwLock
serve l ticket = record l { write_queue = record l.write_queue { now_serving = ticket } }

abbrev pub serving : RwLock → ℕ
serving l = l.write_queue.now_serving

-- Where a thread stands, with the locals that it still needs.
pub data Pc : Type 0 where
  idle : Pc
  -- The head of the loop of `read_lock`; before the undo; in the inner loop; between `read_lock`
  -- and `read_unlock`.
  entering bouncing held_off reading : Pc
  -- In `lock` of the ticket lock, with the ticket.
  queued : ℕ → Pc
  -- `write_lock` before `fetch_or` and in its loop; between `write_lock` and `write_unlock`.
  owning announced writing : Pc
  -- `unlock` of the ticket lock, before and after the load of the counter.
  leaving : Pc
  leaving_at : ℕ → Pc

-- One step of one thread: the lock and the place before, the lock and the place after.
pub data Move (l : RwLock) : Pc → RwLock → Pc → Type 0 where
  read_lock : Move l idle l entering
  enter :
      writer_bits l.rw_state ≡ 0
      → Move l entering (set_state l (add32 l.rw_state reader_inc)) reading
  bounce :
      writer_bits l.rw_state ≢ 0
      → Move l entering (set_state l (add32 l.rw_state reader_inc)) bouncing
  undo :
      writer_bits (sub32 l.rw_state reader_inc) ≢ 0
      → Move l bouncing (set_state l (sub32 l.rw_state reader_inc)) held_off
  undo_retry :
      writer_bits (sub32 l.rw_state reader_inc) ≡ 0
      → Move l bouncing (set_state l (sub32 l.rw_state reader_inc)) entering
  hold_off : writer_bits l.rw_state ≢ 0 → Move l held_off l held_off
  retry : writer_bits l.rw_state ≡ 0 → Move l held_off l entering
  read_unlock : Move l reading (set_state l (sub32 l.rw_state reader_inc)) idle
  write_lock : Move l idle (take_ticket l) (queued l.write_queue.next_ticket)
  spin : {t : ℕ} → serving l ≢ t → Move l (queued t) l (queued t)
  own : {t : ℕ} → serving l ≡ t → Move l (queued t) l owning
  announce : Move l owning (set_state l (or_waiting l.rw_state)) announced
  win : l.rw_state ≡ writer_waiting → Move l announced (set_state l writer_locked) writing
  lose : l.rw_state ≢ writer_waiting → Move l announced l announced
  write_unlock : Move l writing (set_state l (and_not_locked l.rw_state)) leaving
  load : Move l leaving l (leaving_at (serving l))
  store : {s : ℕ} → Move l (leaving_at s) (serve l (add32 s 1)) idle

pub record System : Type 0 where
  pub lock : RwLock
  pub pc : ℕ → Pc

pub data Step (n : ℕ) (s : System) : System → Type 0 where
  pick :
      (i : ℕ) {l : RwLock} {p : Pc}
      → i < n
      → Move s.lock (s.pc i) l p
      → Step n s (record { lock = l; pc = put s.pc i p })

abbrev pub unlocked : RwLock
unlocked = record { rw_state = 0; write_queue = record { now_serving = 0; next_ticket = 0 } }

abbrev pub start_system : System
start_system = record { lock = unlocked; pc = λ i. idle }

-- What `n` threads can reach from the lock as it is constructed.
pub data Reach (n : ℕ) : System → Type 0 where
  start : Reach n start_system
  later : {s t : System} → Reach n s → Step n s t → Reach n t
