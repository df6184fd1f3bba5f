-- ===== src/Locks/Moves.antt =====
-- kernel/src/utils/locks/rwlock.cpp: a move of one thread keeps each field of the invariant.
use erebus.Base.{
  ℕ, ◌+◌, ◌*◌, ◌%◌, ◌^◌, ◌≤◌, ◌<◌, ◌≡◌, ◌≢◌, refl, ◌⊎◌, inl, inr, Bool-cases, ltb, ltb→lt, some,
  arith,
}
use erebus.Base.Family.{put, total, total-put, total_bound, total_all_zero}
use erebus.Locks.{
  RwLock, Pc, Move, serving, writer_bits, writer_waiting, queued, read_lock, enter, bounce,
  write_lock, own, win, store,
}
use erebus.Locks.Invariant.{
  ticket, holds, owns, unmarked, announces, writes, counts, reads, bounces, ahead, Holder, IsFresh,
  Inv,
}

-- The premise of a move, for clauses that do not name it.
abbrev Premise : {l l' : RwLock} {p p' : Pc} → Move l p l' p' → Type 0
Premise {l} (enter _) = writer_bits l.rw_state ≡ 0
Premise {l} (bounce _) = writer_bits l.rw_state ≢ 0
Premise {l} (own {t} _) = serving l ≡ t
Premise {l} (win _) = l.rw_state ≡ writer_waiting
Premise _ = Unit

premise : {l l' : RwLock} {p p' : Pc} (mv : Move l p l' p') → Premise mv
premise (enter h) = h
premise (bounce h) = h
premise (own h) = h
premise (win h) = h
premise _ = tt

module _ {n : ℕ} {l : RwLock} {pc : ℕ → Pc} (inv : Inv n l pc) (i : ℕ) where
  open inv use {range, unique, covered, fresh}

  -- The sums after thread `i` has gone from `p` to `p'`, and what is known of it before.
  record Mover (p p' : Pc) : Type 0 where
    inside : i < n
    here : pc i ≡ p
    own_fresh : IsFresh l p
    h_holds : total holds n (put pc i p') + holds p ≡ total holds n pc + holds p'
    h_owns : total owns n (put pc i p') + owns p ≡ total owns n pc + owns p'
    h_unmarked : total unmarked n (put pc i p') + unmarked p ≡ total unmarked n pc + unmarked p'
    h_announces :
        total announces n (put pc i p') + announces p ≡ total announces n pc + announces p'
    h_writes : total writes n (put pc i p') + writes p ≡ total writes n pc + writes p'
    h_counts : total counts n (put pc i p') + counts p ≡ total counts n pc + counts p'
    h_reads : total reads n (put pc i p') + reads p ≡ total reads n pc + reads p'
    h_bounces : total bounces n (put pc i p') + bounces p ≡ total bounces n pc + bounces p'
    few_holds : total holds n pc ≤ n
    few_counts : total counts n pc ≤ n

  mover : i < n → (p' : Pc) → Mover (pc i) p'
  mover lt p' = record {
    inside = lt;
    here = refl;
    own_fresh = fresh i;
    h_holds = total-put holds n pc i p' lt;
    h_owns = total-put owns n pc i p' lt;
    h_unmarked = total-put unmarked n pc i p' lt;
    h_announces = total-put announces n pc i p' lt;
    h_writes = total-put writes n pc i p' lt;
    h_counts = total-put counts n pc i p' lt;
    h_reads = total-put reads n pc i p' lt;
    h_bounces = total-put bounces n pc i p' lt;
    few_holds = total_bound holds n pc (λ p. ground arith);
    few_counts = total_bound counts n pc (λ p. ground arith);
  }

  -- Nobody owns the queue while the thread whose ticket is served still waits for it.
  no_owner : {t : ℕ} → pc i ≡ queued t → serving l ≡ t → total owns n pc ≡ 0
  no_owner {t} e h = total_all_zero owns n pc (λ j lt. ground (arith, unique i j t))

  Move-tickets : {p p' : Pc} {l' : RwLock} → Move l p l' p' → Mover p p' → record {
    fits : serving l' < 2 ^ 32;
    handed : l'.write_queue.next_ticket ≡ (serving l' + total holds n (put pc i p')) % 2 ^ 32;
  }
  Move-tickets read_lock f = ground arith
  Move-tickets mv f = ground (arith, premise mv)

  Move-words : {p p' : Pc} {l' : RwLock} → Move l p l' p' → Mover p p' → record {
    one_owner : total owns n (put pc i p') ≤ 1;
    owners :
        total owns n (put pc i p')
        ≡ total unmarked n (put pc i p')
          + total announces n (put pc i p')
          + total writes n (put pc i p');
    word :
        l'.rw_state
        ≡ 256 * total counts n (put pc i p')
          + 2 * total announces n (put pc i p')
          + total writes n (put pc i p');
    readers :
        total counts n (put pc i p') ≡ total reads n (put pc i p') + total bounces n (put pc i p');
    excluded : (total writes n (put pc i p') ≡ 0) ⊎ (total reads n (put pc i p') ≡ 0);
  }
  Move-words (own h) f = ground (arith, no_owner f.here h)
  Move-words mv f = ground (arith, premise mv)

  Move-range :
      {p p' : Pc} {l' : RwLock}
      → Move l p l' p'
      → Mover p p'
      → (j t : ℕ) → ticket l' (put pc i p' j) ≡ some t
      → (t < 2 ^ 32) × (ahead l' t < total holds n (put pc i p'))
  Move-range read_lock f j t q = ground (arith, range j t)
  Move-range mv f j t q = ground (arith, premise mv, range j t, unique i j (serving l))

  Move-unique :
      {p p' : Pc} {l' : RwLock}
      → Move l p l' p'
      → Mover p p'
      → (a b t : ℕ) → ticket l' (put pc i p' a) ≡ some t
      → ticket l' (put pc i p' b) ≡ some t
      → a ≡ b
  Move-unique write_lock f a b t qa qb = ground (arith, range a t, range b t, unique a b t)
  Move-unique mv f a b t qa qb = ground (
    arith,
    premise mv,
    range a t,
    range b t,
    unique a b t,
    unique i a (serving l),
    unique i b (serving l),
  )

  Move-IsFresh :
      {p p' : Pc} {l' : RwLock} → Move l p l' p' → Mover p p' → (j : ℕ) → IsFresh l' (put pc i p' j)
  Move-IsFresh read_lock f j = ground (arith, fresh j)
  Move-IsFresh mv f j = ground (arith, fresh j, unique i j (serving l))

  -- A new ticket goes to the mover; after a release the holder of `d + 1` is the holder of `d`.
  Move-covered :
      {p p' : Pc} {l' : RwLock}
      → Move l p l' p'
      → Mover p p'
      → (d : ℕ) → d < total holds n (put pc i p')
      → Holder n l' (put pc i p') d
  Move-covered write_lock f d q = elim (Bool-cases (ltb d (total holds n pc))) [
    | inl e ↦ let (j, lt, held) = covered d (ltb→lt _ _ e) in (j, lt, ground arith)
    | inr e ↦ (i, f.inside, ground arith)
  ]
  Move-covered (store {s}) f d q =
      let (j, lt, held) = covered (d + 1) (omega arith) in (j, lt, ground (arith, fresh i))
  Move-covered mv f d q =
      let (j, lt, held) = covered d (omega arith) in (j, lt, ground (arith, premise mv))

  pub Move-Inv : {p : Pc} {l' : RwLock} → i < n → Move l (pc i) l' p → Inv n l' (put pc i p)
  Move-Inv {p} lt mv =
      let f = mover lt p in
      let t = Move-tickets mv f in
      let w = Move-words mv f in
      record {
        few = inv.few;
        fits = t.fits;
        handed = t.handed;
        range = Move-range mv f;
        unique = Move-unique mv f;
        covered = Move-covered mv f;
        fresh = Move-IsFresh mv f;
        one_owner = w.one_owner;
        owners = w.owners;
        word = w.word;
        readers = w.readers;
        excluded = w.excluded;
      }
