-- ===== src/Locks/Liveness.antt =====
-- kernel/src/utils/locks/rwlock.cpp: from every state, some schedule lets every thread finish.
use erebus.Base.{
  ℕ, zero, suc, ◌^◌, ◌≤◌, ◌<◌, ◌==◌, ◌≡◌, ◌≢◌, refl, sym, subst, inl, inr, Bool-cases, ltb, ltb→lt,
  not_ltb→le, ==→eq, not_==→ne, some, arith,
}
use erebus.Base.Family.{total, total-put, total_pos, term-le, total_all_zero}
use erebus.Locks.{
  RwLock, Pc, Move, System, Step, pick, Reach, serving, writer_bits, writer_waiting, idle, entering,
  bouncing, held_off, reading, queued, owning, announced, writing, leaving, leaving_at, enter, undo,
  undo_retry, retry, read_unlock, own, announce, win, write_unlock, load, store, sub32, reader_inc,
}
use erebus.Locks.Invariant.{ticket, holds, owns, announces, writes, counts, Inv}
use erebus.Locks.Safety.{Step-Inv, Reach-Inv}

-- Zero or more steps.
pub data Steps (n : ℕ) : System → System → Type 0 where
  done : {s : System} → Steps n s s
  next : {s t u : System} → Step n s t → Steps n t u → Steps n s u

abbrev pub Finished : ℕ → System → Type 0
Finished n s = (i : ℕ) → i < n → s.pc i ≡ idle

-- Steps that a thread has left, when no writer sends a reader back.
abbrev rank : Pc → ℕ
rank idle = 0
rank entering = 2
rank bouncing = 4
rank held_off = 3
rank reading = 1
rank (queued t) = 6
rank owning = 5
rank announced = 4
rank writing = 3
rank leaving = 2
rank (leaving_at s) = 1

abbrev Lower : ℕ → System → Type 0
Lower n s = (t : System) × Step n s t × (total rank n t.pc < total rank n s.pc)

module _ {n : ℕ} {s : System} (inv : Inv n s.lock s.pc) where
  open inv use {covered, one_owner, owners, word}

  lower :
      {j : ℕ} {p p' : Pc} {l' : RwLock}
      → j < n
      → s.pc j ≡ p
      → Move s.lock p l' p'
      → rank p' < rank p
      → Lower n s
  lower {j} {p} {p'} {l'} lt e mv d = (
    _,
    pick j lt (subst (λ q. Move s.lock q l' p') (sym e) mv),
    ground (arith, total-put rank n s.pc j p' lt),
  )

  undone-Lower : {j : ℕ} → j < n → s.pc j ≡ bouncing → Lower n s
  undone-Lower lt e = elim (Bool-cases (writer_bits (sub32 s.lock.rw_state reader_inc) == 0)) [
    | inl b ↦ lower lt e (undo_retry (==→eq _ _ b)) (omega arith)
    | inr b ↦ lower lt e (undo (not_==→ne _ _ b)) (omega arith)
  ]

  -- A reader that the word counts can go on whatever the others do.
  counted-Lower : {j : ℕ} (p : Pc) → j < n → s.pc j ≡ p → 0 < counts p → Lower n s
  counted-Lower reading lt e c = lower lt e read_unlock (omega arith)
  counted-Lower bouncing lt e c = undone-Lower lt e
  counted-Lower _ lt e c = absurd (omega arith)

  announced-Lower : {j : ℕ} → j < n → s.pc j ≡ announced → Lower n s
  announced-Lower {j} lt e = elim (Bool-cases (s.lock.rw_state == writer_waiting)) [
    | inl b ↦ lower lt e (win (==→eq _ _ b)) (omega arith)
    | inr b ↦
        let one = term-le announces n s.pc j lt in
        let ne = not_==→ne _ _ b in
        let (k, in_k, c) = total_pos counts n s.pc (ground arith) in
        counted-Lower (s.pc k) in_k refl c
  ]

  owner-Lower : {j : ℕ} (p : Pc) → j < n → s.pc j ≡ p → 0 < owns p → Lower n s
  owner-Lower owning lt e c = lower lt e announce (omega arith)
  owner-Lower announced lt e c = announced-Lower lt e
  owner-Lower writing lt e c = lower lt e write_unlock (omega arith)
  owner-Lower leaving lt e c = lower lt e load (omega arith)
  owner-Lower (leaving_at t) lt e c = lower lt e store (omega arith)
  owner-Lower _ lt e c = absurd (omega arith)

  some_owner-Lower : 0 < total owns n s.pc → Lower n s
  some_owner-Lower c = let (j, lt, o) = total_pos owns n s.pc c in owner-Lower (s.pc j) lt refl o

  -- The thread whose ticket is served owns the queue or may take it.
  served-Lower :
      {j : ℕ} (p : Pc) → j < n → s.pc j ≡ p → ticket s.lock p ≡ some (serving s.lock) → Lower n s
  served-Lower (queued t) lt e q = lower lt e (own (ground arith)) (omega arith)
  served-Lower idle lt e q = absurd (ground arith)
  served-Lower entering lt e q = absurd (ground arith)
  served-Lower bouncing lt e q = absurd (ground arith)
  served-Lower held_off lt e q = absurd (ground arith)
  served-Lower reading lt e q = absurd (ground arith)
  served-Lower p lt e q = owner-Lower p lt e (omega arith)

  -- Bits of a writer stand in the word only while a thread owns the queue.
  marked-Lower : writer_bits s.lock.rw_state ≢ 0 → Lower n s
  marked-Lower h = some_owner-Lower (ground arith)

  queued-Lower : {j t : ℕ} → j < n → s.pc j ≡ queued t → Lower n s
  queued-Lower {j} lt e =
      let one = term-le holds n s.pc j lt in
      let (k, in_k, q) = covered 0 (ground arith) in
      served-Lower (s.pc k) in_k refl (ground (arith, inv.fits))

  busy-Lower : {j : ℕ} (p : Pc) → j < n → s.pc j ≡ p → 0 < rank p → Lower n s
  busy-Lower idle lt e h = absurd (omega arith)
  busy-Lower bouncing lt e h = undone-Lower lt e
  busy-Lower reading lt e h = lower lt e read_unlock (omega arith)
  busy-Lower (queued t) lt e h = queued-Lower lt e
  busy-Lower entering lt e h = elim (Bool-cases (writer_bits s.lock.rw_state == 0)) [
    | inl b ↦ lower lt e (enter (==→eq _ _ b)) (omega arith)
    | inr b ↦ marked-Lower (not_==→ne _ _ b)
  ]
  busy-Lower held_off lt e h = elim (Bool-cases (writer_bits s.lock.rw_state == 0)) [
    | inl b ↦ lower lt e (retry (==→eq _ _ b)) (omega arith)
    | inr b ↦ marked-Lower (not_==→ne _ _ b)
  ]
  busy-Lower p lt e h = owner-Lower p lt e (omega arith)

no_rank : (p : Pc) → rank p ≡ 0 → p ≡ idle
no_rank idle e = refl
no_rank _ e = absurd (omega arith)

drain :
    {n : ℕ} (fuel : ℕ) (s : System)
    → total rank n s.pc ≤ fuel
    → Inv n s.lock s.pc
    → (t : System) × Steps n s t × Finished n t × Inv n t.lock t.pc
drain {n} zero s le inv =
    (s, done, λ i lt. no_rank (s.pc i) (omega (arith, term-le rank n s.pc i lt)), inv)
drain {n} (suc fuel) s le inv = elim (Bool-cases (ltb 0 (total rank n s.pc))) [
  | inr b ↦
      let z = not_ltb→le _ _ b in
      (s, done, λ i lt. no_rank (s.pc i) (omega (arith, term-le rank n s.pc i lt)), inv)
  | inl b ↦
      let (j, in_n, r) = total_pos rank n s.pc (ltb→lt _ _ b) in
      let (t, st, d) = busy-Lower inv (s.pc j) in_n refl r in
      let (u, path, f, last) = drain fuel t (omega arith) (Step-Inv st inv) in
      (u, next st path, f, last)
]

abbrev pub IsFree : RwLock → Type 0
IsFree l = (l.rw_state ≡ 0) × (l.write_queue.next_ticket ≡ serving l)

idle_weight :
    {n : ℕ} {pc : ℕ → Pc} (w : Pc → ℕ)
    → w idle ≡ 0
    → ((i : ℕ) → i < n → pc i ≡ idle)
    → total w n pc ≡ 0
idle_weight {n} {pc} w z f = total_all_zero w n pc (λ i lt. subst (λ p. w p ≡ 0) (sym (f i lt)) z)

finished-IsFree :
    {n : ℕ} {l : RwLock} {pc : ℕ → Pc} → Inv n l pc → ((i : ℕ) → i < n → pc i ≡ idle) → IsFree l
finished-IsFree inv f =
    let a = idle_weight holds refl f in
    let b = idle_weight announces refl f in
    let c = idle_weight writes refl f in
    let d = idle_weight counts refl f in
    let e = inv.word in let g = inv.handed in let h = inv.fits in (omega arith, omega arith)

-- From every state that fewer than 2 ^ 23 threads reach from the unlocked lock, some schedule takes
-- every thread out of the lock: none is stuck in `read_lock`, in `write_lock` or in the ticket
-- queue for good. The lock is then free again: its word is 0 and the next ticket is the one served.
pub Reach-Finished :
    {n : ℕ} {s : System}
    → n < 2 ^ 23
    → Reach n s
    → (t : System) × Steps n s t × Finished n t × IsFree t.lock
Reach-Finished {n} {s} few r =
    let (t, path, f, inv) = drain (total rank n s.pc) s (omega arith) (Reach-Inv few r) in
    (t, path, f, finished-IsFree inv f)
