-- ===== src/Scheduler.antt =====
-- kernel/src/sched/scheduler.cpp: one thread among the CPUs, and everything that may wake it, enqueue
-- it or move it at the same time. Of the run queues it has what they say about this thread. What runs
-- under a queue's lock is one step, but in `wake` the look at the state and what follows are two.
pub mod Places
pub mod Moves
pub mod Workers
pub mod Safety
pub mod Liveness
mod Tests
use erebus.Base.{ℕ, ◌+◌, ◌-◌, ◌<◌, Bool, true, false, ◌==◌, ◌&&◌, if◌then◌else◌, ◌≡◌, ◌≢◌}
use erebus.Base.Family.{put, total}
use erebus.RunQueue.{ThreadState, created, ready, running, blocked, sleeping, dead}

-- What a CPU's queue and the thread's own fields say: on which CPUs it is the current one, how often
-- it waits on each queue, whether the scheduler has it.
pub record ThreadView : Type 0 where
  pub state : ThreadState
  pub cpu_id : ℕ
  pub scheduled : Bool
  pub current : ℕ → Bool
  pub queued : ℕ → ℕ

-- Where something stands that works on the thread: in `Scheduler::enqueue` before and after it has
-- handed the thread over; in `wake` before and after it has read the CPU, and with the lock held and
-- the state read; with the thread in its hand, and once it has set the CPU.
pub data Worker : Type 0 where
  away offering handing looking placing : Worker
  looked seen placing_at : ℕ → Worker

abbrev pub can_wake : ThreadState → Bool
can_wake blocked = true
can_wake sleeping = true
can_wake _ = false

abbrev pub can_offer : ThreadState → Bool
can_offer created = true
can_offer ready = true
can_offer _ = false

abbrev pub put_state : ThreadView → ThreadState → ThreadView
put_state t state = record t { state = state }

abbrev pub set_scheduled : ThreadView → Bool → ThreadView
set_scheduled t scheduled = record t { scheduled = scheduled }

abbrev pub set_cpu_id : ThreadView → ℕ → ThreadView
set_cpu_id t cpu = record t { cpu_id = cpu }

-- `enqueue_locked` on the queue of a CPU.
abbrev pub enqueue_on : ThreadView → ℕ → ThreadView
enqueue_on t cpu = record t { state = ready; queued = put t.queued cpu (t.queued cpu + 1) }

abbrev pub remove_from : ThreadView → ℕ → ThreadView
remove_from t cpu = record t { queued = put t.queued cpu (t.queued cpu - 1) }

-- `pick_next_locked` and `switch_to`: the thread goes off its CPU to the queue, off it to nowhere, and
-- from the queue of a CPU on to it.
abbrev pub requeue_from : ThreadView → ℕ → ThreadView
requeue_from t cpu = record (enqueue_on t cpu) { current = put t.current cpu false }

abbrev pub switch_out : ThreadView → ℕ → ThreadView
switch_out t cpu = record t { current = put t.current cpu false }

abbrev pub switch_to : ThreadView → ℕ → ThreadView
switch_to t cpu = record (remove_from t cpu) {
  state = running;
  cpu_id = cpu;
  current = put t.current cpu true;
}

-- A step of a worker. `free c` says that no worker holds the lock of the queue of CPU `c`.
pub data Work (m : ℕ) (free : ℕ → Type 0) (t : ThreadView)
    : Worker → ThreadView → Worker → Type 0 where
  offer : can_offer t.state ≡ true → Work m free t away t offering
  hand : t.scheduled ≡ false → Work m free t offering (set_scheduled t true) handing
  too_late : t.scheduled ≡ true → Work m free t offering t away
  turn_down : Work m free t handing (set_scheduled t false) away
  target_new : {d : ℕ} → d < m → Work m free t handing (set_cpu_id t d) (placing_at d)
  target : {d : ℕ} → d < m → Work m free t placing (set_cpu_id t d) (placing_at d)
  enqueue : {d : ℕ} → d < m → free d → Work m free t (placing_at d) (enqueue_on t d) away
  wake : Work m free t away t looking
  look : Work m free t looking t (looked t.cpu_id)
  moved : {c : ℕ} → free c → t.cpu_id ≢ c → Work m free t (looked c) t looking
  not_asleep :
      {c : ℕ} → free c → t.cpu_id ≡ c → can_wake t.state ≡ false → Work m free t (looked c) t away
  see :
      {c : ℕ}
      → free c
      → t.cpu_id ≡ c
      → can_wake t.state ≡ true
      → Work m free t (looked c) t (seen c)
  catch : {c : ℕ} → t.current c ≡ true → Work m free t (seen c) (put_state t running) away
  revive : {c : ℕ} → t.current c ≡ false → Work m free t (seen c) (put_state t ready) placing
  steal : {c : ℕ} → c < m → free c → 0 < t.queued c → Work m free t away (remove_from t c) placing

-- A step of the thread on its CPU, or of the switches of a CPU.
pub data Run (m : ℕ) (free : ℕ → Type 0) (t : ThreadView) : ThreadView → Type 0 where
  prepare_to_block :
      {c : ℕ} → c < m → t.current c ≡ true → t.state ≢ dead → Run m free t (put_state t blocked)
  cancel_block :
      {c : ℕ} → c < m → t.current c ≡ true → t.state ≢ dead → Run m free t (put_state t running)
  exit_current : {c : ℕ} → c < m → t.current c ≡ true → Run m free t (put_state t dead)
  preempt :
      {c : ℕ}
      → c < m
      → free c
      → t.current c ≡ true
      → t.state ≢ dead
      → Run m free t (requeue_from t c)
  outrun :
      {c : ℕ}
      → c < m
      → free c
      → t.current c ≡ true
      → t.state ≡ running
      → Run m free t (requeue_from t c)
  block :
      {c : ℕ}
      → c < m
      → free c
      → t.current c ≡ true
      → t.state ≢ running
      → Run m free t (switch_out t c)
  pick :
      {c : ℕ} → c < m → free c → t.current c ≡ false → 0 < t.queued c → Run m free t (switch_to t c)

pub record System : Type 0 where
  pub thread : ThreadView
  pub workers : ℕ → Worker

abbrev pub sees : ℕ → Worker → ℕ
sees c (seen d) = if c == d then 1 else 0
sees c _ = 0

abbrev pub IsFree : ℕ → (ℕ → Worker) → ℕ → Type 0
IsFree n workers c = total (sees c) n workers ≡ 0

-- With `m` CPUs and `n` workers.
pub data Step (m n : ℕ) (s : System) : System → Type 0 where
  work :
      (i : ℕ) {t : ThreadView} {p : Worker}
      → i < n
      → Work m (IsFree n s.workers) s.thread (s.workers i) t p
      → Step m n s (record { thread = t; workers = put s.workers i p })
  run :
      {t : ThreadView}
      → Run m (IsFree n s.workers) s.thread t
      → Step m n s (record s { thread = t })

-- A thread that `Thread::create` has made.
abbrev pub start_system : ℕ → System
start_system cpu = record {
  thread = record {
    state = ready;
    cpu_id = cpu;
    scheduled = false;
    current = λ c. false;
    queued = λ c. 0;
  };
  workers = λ i. away;
}

pub data Reach (m n : ℕ) : System → Type 0 where
  start : (cpu : ℕ) → Reach m n (start_system cpu)
  later : {s t : System} → Reach m n s → Step m n s t → Reach m n t
