-- ===== src/Locks/Invariant.antt =====
-- kernel/src/utils/locks/rwlock.cpp: who holds which ticket, and what the state word counts.
use erebus.Base.{ℕ, ◌+◌, ◌-◌, ◌*◌, ◌%◌, ◌^◌, ◌≤◌, ◌<◌, ◌≡◌, ◌⊎◌, Option, none, some}
use erebus.Base.Family.{total}
use erebus.Locks.{
  RwLock, serving, Pc, idle, entering, bouncing, held_off, reading, queued, owning, announced,
  writing, leaving, leaving_at,
}

-- The thread that owns the write queue has the ticket that is served.
abbrev pub ticket : RwLock → Pc → Option ℕ
ticket l (queued t) = some t
ticket l idle = none
ticket l entering = none
ticket l bouncing = none
ticket l held_off = none
ticket l reading = none
ticket l _ = some (serving l)

-- What a thread adds to each count.
abbrev pub holds : Pc → ℕ
holds idle = 0
holds entering = 0
holds bouncing = 0
holds held_off = 0
holds reading = 0
holds _ = 1

abbrev pub owns : Pc → ℕ
owns owning = 1
owns announced = 1
owns writing = 1
owns leaving = 1
owns (leaving_at s) = 1
owns _ = 0

-- Owners before `fetch_or` or after `fetch_and`, which have no bit in the word.
abbrev pub unmarked : Pc → ℕ
unmarked owning = 1
unmarked leaving = 1
unmarked (leaving_at s) = 1
unmarked _ = 0

abbrev pub announces : Pc → ℕ
announces announced = 1
announces _ = 0

abbrev pub writes : Pc → ℕ
writes writing = 1
writes _ = 0

abbrev pub counts : Pc → ℕ
counts reading = 1
counts bouncing = 1
counts _ = 0

abbrev pub reads : Pc → ℕ
reads reading = 1
reads _ = 0

-- Readers whose increment is undone next.
abbrev pub bounces : Pc → ℕ
bounces bouncing = 1
bounces _ = 0

-- Tickets that are served before this one, modulo 2 ^ 32.
abbrev pub ahead : RwLock → ℕ → ℕ
ahead l t = (t + 2 ^ 32 - serving l) % 2 ^ 32

-- A thread with the ticket that is served after `d` more releases.
abbrev pub Holder : ℕ → RwLock → (ℕ → Pc) → ℕ → Type 0
Holder n l pc d = (i : ℕ) × (i < n) × (ticket l (pc i) ≡ some ((serving l + d) % 2 ^ 32))

-- What a local says about the lock.
abbrev pub IsFresh : RwLock → Pc → Type 0
IsFresh l (leaving_at s) = serving l ≡ s
IsFresh l _ = Unit

pub record Inv (n : ℕ) (l : RwLock) (pc : ℕ → Pc) : Type 0 where
  pub few : n < 2 ^ 23
  pub fits : serving l < 2 ^ 32
  pub handed : l.write_queue.next_ticket ≡ (serving l + total holds n pc) % 2 ^ 32
  pub range : (i t : ℕ) → ticket l (pc i) ≡ some t → (t < 2 ^ 32) × (ahead l t < total holds n pc)
  pub unique : (i j t : ℕ) → ticket l (pc i) ≡ some t → ticket l (pc j) ≡ some t → i ≡ j
  pub covered : (d : ℕ) → d < total holds n pc → Holder n l pc d
  pub fresh : (i : ℕ) → IsFresh l (pc i)
  pub one_owner : total owns n pc ≤ 1
  pub owners : total owns n pc ≡ total unmarked n pc + total announces n pc + total writes n pc
  pub word : l.rw_state ≡ 256 * total counts n pc + 2 * total announces n pc + total writes n pc
  pub readers : total counts n pc ≡ total reads n pc + total bounces n pc
  pub excluded : (total writes n pc ≡ 0) ⊎ (total reads n pc ≡ 0)
