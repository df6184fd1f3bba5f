-- ===== src/Locks/Safety.antt =====
-- kernel/src/utils/locks/rwlock.cpp: mutual exclusion, and a thread that can always go on.
use erebus.Base.{
  ℕ, ◌+◌, ◌^◌, ◌≤◌, ◌<◌, ◌==◌, ◌≡◌, ◌≢◌, ◌%◌, refl, sym, ap, ◌⊎◌, inl, inr, Bool, Option, none,
  some, arith, Bool-cases, if◌then◌else◌, ltb, ltb→lt, not_ltb→le, ==→eq, not_==→ne,
}
use erebus.Base.Family.{put, total, total_all_zero, term-le, total-put, total_bound}
use erebus.Locks.{
  TicketSpinlock, RwLock, exchange_ticket, Pc, System, Step, pick, Reach, start, later, unlocked,
  serving, idle,
}
use erebus.Locks.Invariant.{
  holds, owns, unmarked, announces, writes, counts, reads, bounces, ahead, ticket, Holder, Inv,
}
use erebus.Locks.Moves.{Move-Inv}

all_idle : (w : Pc → ℕ) (n : ℕ) → w idle ≡ 0 → total w n (λ i. idle) ≡ 0
all_idle w n z = total_all_zero w n (λ i. idle) (λ i lt. z)

unlocked-Inv : (n : ℕ) → n < 2 ^ 23 → Inv n unlocked (λ i. idle)
unlocked-Inv n lt =
    let a = all_idle holds n refl in
    let b = all_idle owns n refl in
    let c = all_idle unmarked n refl in
    let d = all_idle announces n refl in
    let e = all_idle writes n refl in
    let f = all_idle counts n refl in
    let g = all_idle reads n refl in
    let h = all_idle bounces n refl in
    record {
      few = lt;
      fits = omega arith;
      handed = omega arith;
      range = λ i t q. ground arith;
      unique = λ i j t q. ground arith;
      covered = λ d q. absurd (omega arith);
      fresh = λ i. tt;
      one_owner = omega arith;
      owners = omega arith;
      word = omega arith;
      readers = omega arith;
      excluded = inl e;
    }

pub Step-Inv : {n : ℕ} {s t : System} → Step n s t → Inv n s.lock s.pc → Inv n t.lock t.pc
Step-Inv (pick i lt mv) inv = Move-Inv inv i lt mv

pub Reach-Inv : {n : ℕ} {s : System} → n < 2 ^ 23 → Reach n s → Inv n s.lock s.pc
Reach-Inv few start = unlocked-Inv _ few
Reach-Inv few (later r st) = Step-Inv st (Reach-Inv few r)

one_write : (p : Pc) → writes p ≤ 1
one_write p = ground arith

one_read : (p : Pc) → reads p ≤ 1
one_read p = ground arith

-- In every state that fewer than 2 ^ 23 threads reach from the unlocked lock, in any interleaving of
-- their atomic accesses: of two threads at most one owns the write queue, from the time its ticket is
-- served to its release; and while one is between `write_lock` and `write_unlock`, the other is not
-- between `read_lock` and `read_unlock`.
pub writing-IsExclusive :
    {n : ℕ} {s : System} (i j : ℕ)
    → n < 2 ^ 23
    → Reach n s
    → i < n
    → j < n
    → i ≢ j
    → (owns (s.pc i) + owns (s.pc j) ≤ 1) × (writes (s.pc i) + reads (s.pc j) ≤ 1)
writing-IsExclusive {n} {s} i j few r lt_i lt_j ne =
    let inv = Reach-Inv few r in
    let one = inv.one_owner in
    let out = inv.excluded in
    let w = term-le writes n s.pc i lt_i in
    let v = term-le reads n s.pc j lt_j in
    let gone = total-put owns n s.pc i idle lt_i in
    let rest = term-le owns n (put s.pc i idle) j lt_j in
    let a = one_write (s.pc i) in let b = one_read (s.pc j) in (ground arith, ground arith)

abbrev pub Differ : Option ℕ → Option ℕ → Type 0
Differ none b = Unit
Differ (some t) none = Unit
Differ (some t) (some u) = t ≢ u

-- Of a ticket, how many releases are ahead of it.
abbrev pub IsAhead : RwLock → ℕ → Option ℕ → Type 0
IsAhead l count none = Unit
IsAhead l count (some t) = ahead l t < count

-- The exchange with the ticket that is served, if the lock is free or not.
abbrev pub TriesLock : RwLock → Bool → TicketSpinlock × Bool → Type 0
TriesLock l free (queue, taken) =
    (taken ≡ free)
    × (queue ≡ record l.write_queue {
      next_ticket = if free then (serving l + 1) % 2 ^ 32 else l.write_queue.next_ticket;
    })

differ :
    {i j : ℕ} (a b : Option ℕ) → ((t : ℕ) → a ≡ some t → b ≡ some t → i ≡ j) → i ≢ j → Differ a b
differ none b f ne = tt
differ (some t) none f ne = tt
differ (some t) (some u) f ne = λ e. ne (f t refl (ap some (sym e)))

is_ahead :
    (l : RwLock) (count : ℕ) (a : Option ℕ)
    → ((t : ℕ) → a ≡ some t → (t < 2 ^ 32) × (ahead l t < count))
    → IsAhead l count a
is_ahead l count none f = tt
is_ahead l count (some t) f = (f t refl).1

-- In every state that fewer than 2 ^ 23 threads reach from the unlocked lock, where a thread has a
-- ticket of the write queue from its `fetch_add` up to the release of that ticket: two threads with a
-- ticket have different ones; a thread with a ticket has fewer releases ahead of it than threads have
-- tickets; each of these many tickets, from the one that is served on, is held by a thread; and the
-- exchange of `try_lock`, with the ticket that is served, takes the lock and gives out the next ticket
-- when no thread has one, and fails and leaves the lock alone otherwise.
pub tickets-IsQueue :
    {n : ℕ} {s : System} (i j d : ℕ)
    → n < 2 ^ 23
    → Reach n s
    → ((i ≡ j) ⊎ Differ (ticket s.lock (s.pc i)) (ticket s.lock (s.pc j)))
      × IsAhead s.lock (total holds n s.pc) (ticket s.lock (s.pc i))
      × ((total holds n s.pc ≤ d) ⊎ Holder n s.lock s.pc d)
      × TriesLock s.lock
          (total holds n s.pc == 0)
          (exchange_ticket s.lock.write_queue (serving s.lock))
unfolding exchange_ticket
tickets-IsQueue {n} {s} i j d few r =
    let inv = Reach-Inv few r in
    let bound = total_bound holds n s.pc (λ p. ground arith) in
    let same : (s.lock.write_queue.next_ticket == serving s.lock) ≡ (total holds n s.pc == 0) =
      ground (arith, inv.handed, inv.fits, inv.few, bound) in
    (
      elim (Bool-cases (i == j)) [
        | inl e ↦ inl (==→eq i j e)
        | inr e ↦ inr (differ _ _ (inv.unique i j) (not_==→ne i j e))
      ],
      is_ahead s.lock (total holds n s.pc) (ticket s.lock (s.pc i)) (inv.range i),
      elim (Bool-cases (ltb d (total holds n s.pc))) [
        | inl e ↦ inr (inv.covered d (ltb→lt d _ e))
        | inr e ↦ inl (not_ltb→le d _ e)
      ],
      elim (Bool-cases (total holds n s.pc == 0)) [
        | inl e ↦ rw (same, e) (refl, refl)
        | inr e ↦ rw (same, e) (refl, refl)
      ],
    )
