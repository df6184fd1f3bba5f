-- ===== src/Scheduler/Places.antt =====
-- kernel/src/sched/scheduler.cpp: the places where a thread may be.
use erebus.Base.{ℕ, ◌+◌, ◌≤◌, ◌<◌, Bool, true, false, if◌then◌else◌, ◌≡◌, ◌≢◌}
use erebus.Base.Family.{total}
use erebus.RunQueue.{ThreadState, ready, running}
use erebus.Scheduler.{ThreadView, Worker, handing, placing, seen, placing_at, can_wake}

abbrev pub flag : Bool → ℕ
flag b = if b then 1 else 0

abbrev pub count : ℕ → ℕ
count k = k

-- Workers that have the thread in their hand.
abbrev pub hands : Worker → ℕ
hands handing = 1
hands placing = 1
hands (placing_at d) = 1
hands _ = 0

-- Workers that hold a lock and have read a state that can be woken.
abbrev pub sees_any : Worker → ℕ
sees_any (seen c) = 1
sees_any _ = 0

abbrev pub runs : ℕ → ThreadView → ℕ
runs m t = total flag m t.current

abbrev pub waits : ℕ → ThreadView → ℕ
waits m t = total count m t.queued

abbrev pub held : ℕ → (ℕ → Worker) → ℕ
held n workers = total hands n workers

abbrev pub places : ℕ → ℕ → ThreadView → (ℕ → Worker) → ℕ
places m n t workers = runs m t + waits m t + held n workers

-- States that have the thread somewhere once the scheduler has it, and the one in which it waits.
abbrev pub live_state : ThreadState → ℕ
live_state ready = 1
live_state running = 1
live_state _ = 0

abbrev pub is_live : ThreadView → ℕ
is_live t = if t.scheduled then live_state t.state else 0

abbrev pub may_wait : ThreadState → ℕ
may_wait ready = 1
may_wait _ = 0

pub record Inv (m n : ℕ) (t : ThreadView) (workers : ℕ → Worker) : Type 0 where
  pub one : places m n t workers ≤ 1
  pub somewhere : is_live t ≤ places m n t workers
  pub waiting : waits m t + held n workers ≤ may_wait t.state
  pub new : t.scheduled ≡ false → (places m n t workers ≡ 0) × (t.state ≡ ready)
  pub inside : (c : ℕ) → t.current c ≡ true → c < m
  pub here : (c : ℕ) → t.current c ≡ true → t.cpu_id ≡ c
  pub acting : (c : ℕ) → t.current c ≡ true → t.state ≢ ready
  pub handed : (i : ℕ) → i < n → workers i ≡ handing → t.state ≡ ready
  pub one_seer : total sees_any n workers ≤ 1
  pub seer : (i c : ℕ) → i < n → workers i ≡ seen c → t.cpu_id ≡ c
  pub asleep :
      (i c : ℕ)
      → i < n
      → workers i ≡ seen c
      → t.current c ≡ false
      → (places m n t workers ≡ 0) × (can_wake t.state ≡ true)
