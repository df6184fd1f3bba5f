-- ===== src/RunQueue/Pick/Order.antt =====
-- kernel/src/sched/runqueue.cpp: levels and FIFOs under the steps of a pick.
use erebus.Base.{
  ℕ, ◌≤◌, Bool, true, false, not, ◌&&◌, ◌||◌, Option, none, some, List, [], ◌∷◌, ◌==◌,
  if◌then◌else◌, arith, ◌≡◌, refl, sym, subst, ◌∙◌, inl, inr, Bool-cases, Option-cases, ==→eq, All,
  ◌⊎◌,
}
use erebus.Eevdf.{
  EevdfQueue, is_current, retire_current, requeue_current, yield_current, insert_node,
  account_leave,
}
use erebus.Eevdf.Entities.{Entity}
use erebus.RunQueue.{
  RunQueue, RtFifo, PickMode, class_level, rt_level, is_nil, insert_after, push_fifo, push_realtime,
  pop_fifo, pop_realtime, account_added, mark_queued, set_entity,
}
use erebus.RunQueue.Pick.{
  is_yield, is_dead, is_runnable, retire_prev, leave_cpu, run_realtime, requeue_realtime,
  requeue_current_fair,
}

-- The threads of a FIFO have its level.
abbrev pub IsAt : RunQueue → ℕ → List ℕ → Type 0
IsAt q level xs = All (λ id. rt_level q id ≡ level) xs

abbrev pub IsLevelled : RunQueue → Type 0
IsLevelled q = (level : ℕ) → IsAt q level (q.realtime level).list

-- A thread was picked, and its level is at most this one.
abbrev pub Picks : RunQueue → ℕ → Option (RunQueue × ℕ) → Type 0
Picks q top none = ⊥
Picks q top (some (q', next)) = rt_level q next ≤ top

-- A queue with the same real-time threads and levels.
abbrev pub Same : RunQueue → RunQueue → Type 0
Same q q' = (q'.realtime ≡ q.realtime) × ((id : ℕ) → rt_level q' id ≡ rt_level q id)

abbrev pub Becomes : RunQueue → Option RunQueue → Type 0
Becomes q none = ⊥
Becomes q (some q') = Same q q'

set_entity-level :
    (q : RunQueue) (id : ℕ) (e : Entity) (x : ℕ) → rt_level (set_entity q id e) x ≡ rt_level q x
unfolding rt_level
set_entity-level q id e x = elim (Bool-cases (id == x)) [
  | inl k ↦ rw k (
      subst
        (λ y. class_level (q.threads id).priority_class ≡ class_level (q.threads y).priority_class)
        (==→eq id x k) refl)
  | inr k ↦ rw k refl
]

mark_queued-level : (q : RunQueue) (id x : ℕ) → rt_level (mark_queued q id) x ≡ rt_level q x
unfolding rt_level
mark_queued-level q id x = elim (Bool-cases (id == x)) [
  | inl k ↦ rw k (
      subst
        (λ y. class_level (q.threads id).priority_class ≡ class_level (q.threads y).priority_class)
        (==→eq id x k) refl)
  | inr k ↦ rw k refl
]

List-cases : (xs : List ℕ) → (xs ≡ []) ⊎ ((x : ℕ) × (rest : List ℕ) × (xs ≡ x ∷ rest))
List-cases [] = inl refl
List-cases (x ∷ rest) = inr (x, rest, refl)

-- The head of a FIFO runs.
pub run_realtime_lem :
    (q₀ q : RunQueue) (top prev : ℕ)
    → IsAt q₀ top (q.realtime top).list
    → is_nil (q.realtime top).list ≡ false
    → Picks q₀ top (run_realtime q top prev)
unfolding run_realtime pop_realtime pop_fifo
run_realtime_lem q₀ q top prev at h = elim (List-cases (q.realtime top).list) [
  | inl n ↦ absurd (let k : true ≡ false = simp n at h in cc)
  | inr (x, rest, n) ↦
      let a : All (λ id. rt_level q₀ id ≡ top) (x ∷ rest) =
        subst (λ xs. All (λ id. rt_level q₀ id ≡ top) xs) n at in
      let e = a.0 in rw (n, run_realtime, pop_realtime, pop_fifo) (omega (arith, e))
]

insert_after-IsAt :
    (q : RunQueue) (level at id : ℕ) (xs : List ℕ)
    → rt_level q id ≡ level
    → IsAt q level xs
    → IsAt q level (insert_after at id xs)
unfolding insert_after
insert_after-IsAt q level at id [] e h = tt
insert_after-IsAt q level at id (x ∷ xs) e (a, h) = elim (Bool-cases (x == at)) [
  | inl k ↦ rw (k, insert_after) (a, (e, h))
  | inr k ↦ rw (k, insert_after) (a, insert_after-IsAt q level at id xs e h)
]

insert_after_some :
    (at id : ℕ) (xs : List ℕ) → is_nil xs ≡ false → is_nil (insert_after at id xs) ≡ false
unfolding insert_after
insert_after_some at id [] h = h
insert_after_some at id (x ∷ xs) h = elim (Bool-cases (x == at)) [
  | inl k ↦ rw (k, insert_after) refl
  | inr k ↦ rw (k, insert_after) refl
]

push_fifo-IsAt :
    (q : RunQueue) (level : ℕ) (f : RtFifo) (id : ℕ) (at_front : Bool)
    → rt_level q id ≡ level
    → IsAt q level f.list
    → IsAt q level (push_fifo f id at_front).list × (is_nil (push_fifo f id at_front).list ≡ false)
unfolding push_fifo
push_fifo-IsAt q level f id at_front e at = elim (Bool-cases (at_front || is_nil f.list)) [
  | inl k ↦ rw (k, push_fifo) ((e, at), refl)
  | inr k ↦
      let some_left : is_nil f.list ≡ false = ground arith in
      elim (Option-cases f.tail) [
        | inl n ↦ rw (k, push_fifo, n) (at, some_left)
        | inr (t, n) ↦
            rw (k, push_fifo, n)
              (insert_after-IsAt q level t id f.list e at, insert_after_some t id f.list some_left)
      ]
]

pushed-IsAt :
    (q : RunQueue) (id top : ℕ) (at_front : Bool)
    → IsAt q top (q.realtime top).list
    → IsAt q top ((push_realtime q id at_front).realtime top).list
      × (is_nil (q.realtime top).list ≡ false
          → is_nil ((push_realtime q id at_front).realtime top).list ≡ false)
unfolding push_realtime
pushed-IsAt q id top at_front at = elim (Bool-cases (rt_level q id == top)) [
  | inl e ↦
      let k : top ≡ rt_level q id = sym (==→eq (rt_level q id) top e) in
      let at' : IsAt q top (q.realtime (rt_level q id)).list =
        subst (λ y. IsAt q top (q.realtime y).list) k at in
      let r = push_fifo-IsAt q top (q.realtime (rt_level q id)) id at_front (sym k) at' in
      rw (e, push_realtime) (r.0, λ h. r.1)
  | inr e ↦ rw (e, push_realtime) (at, λ h. h)
]

account_added-realtime : (q : RunQueue) (id : ℕ) → (account_added q id).realtime ≡ q.realtime
unfolding account_added
account_added-realtime q id = elim (Bool-cases (q.threads id).is_pinned) [
  | inl p ↦ rw (p, account_added) refl
  | inr p ↦ rw (p, account_added) refl
]

account_added-threads : (q : RunQueue) (id : ℕ) → (account_added q id).threads ≡ q.threads
unfolding account_added
account_added-threads q id = elim (Bool-cases (q.threads id).is_pinned) [
  | inl p ↦ rw (p, account_added) refl
  | inr p ↦ rw (p, account_added) refl
]

-- The pushed thread joins its own level, the others stay.
pub requeued-IsAt :
    (q : RunQueue) (id top : ℕ) (at_front : Bool)
    → IsAt q top (q.realtime top).list
    → IsAt q top ((requeue_realtime q id at_front).realtime top).list
      × (is_nil (q.realtime top).list ≡ false
          → is_nil ((requeue_realtime q id at_front).realtime top).list ≡ false)
unfolding requeue_realtime
requeued-IsAt q id top at_front at =
    let e : (push_realtime q id at_front).realtime ≡ (requeue_realtime q id at_front).realtime =
      sym (account_added-realtime (mark_queued (push_realtime q id at_front) id) id) in
    subst
      (λ r.
        IsAt q top (r top).list
        × (is_nil (q.realtime top).list ≡ false → is_nil (r top).list ≡ false))
      e (pushed-IsAt q id top at_front at)

current-some :
    (f : EevdfQueue) (id : ℕ) → is_current f id ≡ true → (c : Entity) × (f.current ≡ some c)
unfolding is_current
current-some f id h = elim (Option-cases f.current) [
  | inl e ↦ absurd (let k : false ≡ true = simp (e, is_current) at h in cc)
  | inr (c, e) ↦ (c, e)
]

requeue_current-some :
    (f : EevdfQueue) (c : Entity)
    → f.current ≡ some c
    → (f' : EevdfQueue) × (requeue_current f ≡ some f')
unfolding requeue_current
requeue_current-some f c e =
    (record (insert_node f c) { current = none }, simp (e, requeue_current) refl)

retire_current-some :
    (f : EevdfQueue) (c : Entity)
    → f.current ≡ some c
    → (r : EevdfQueue × Entity) × (retire_current f ≡ some r)
unfolding retire_current
retire_current-some f c e =
    let r = account_leave f c in
    ((record r.0 { current = none }, r.1), simp (e, retire_current) refl)

queued-Same :
    (q : RunQueue) (id : ℕ) (e : Entity) (fair : EevdfQueue)
    → Same q (account_added (mark_queued (record (set_entity q id e) { fair = fair }) id) id)
unfolding rt_level
queued-Same q id e fair = (
  account_added-realtime (mark_queued (record (set_entity q id e) { fair = fair }) id) id,
  λ x.
      subst (λ t. class_level (t x).priority_class ≡ class_level (q.threads x).priority_class)
        (sym
          (account_added-threads (mark_queued (record (set_entity q id e) { fair = fair }) id) id))
        (mark_queued-level (record (set_entity q id e) { fair = fair }) id x
          ∙ set_entity-level q id e x),
)

-- The fair thread that gives way to a real-time one is queued again.
pub requeue_current_fair-Same :
    (q : RunQueue) (id : ℕ) → is_current q.fair id ≡ true → Becomes q (requeue_current_fair q)
unfolding requeue_current_fair
requeue_current_fair-Same q id h =
    let (c, e) = current-some q.fair id h in
    let (fair, r) = requeue_current-some q.fair c e in
    simp (e, r, requeue_current_fair) (queued-Same q c.id c fair)

Becomes-if :
    (q : RunQueue) (b : Bool) (x y : Option RunQueue)
    → Becomes q x
    → Becomes q y
    → Becomes q (if b then x else y)
Becomes-if q true x y h k = h
Becomes-if q false x y h k = k

buried-Same :
    (q r : RunQueue) (b : Bool) (ids : List ℕ)
    → Same q r
    → Same q (if b then record r { dead_list = ids } else r)
unfolding rt_level
buried-Same q r true ids s = s
buried-Same q r false ids s = s

retire_prev-Same : (q : RunQueue) (prev : ℕ) → Becomes q (retire_prev q prev)
unfolding retire_prev rt_level
retire_prev-Same q prev = elim (Bool-cases (is_current q.fair prev)) [
  | inl e ↦
      let (c, k) = current-some q.fair prev e in
      let (r, m) = retire_current-some q.fair c k in
      simp (e, m, retire_prev)
        (buried-Same q (record (set_entity q prev r.1) { fair = r.0 })
          (is_dead (q.threads prev).state) (prev ∷ q.dead_list)
          (refl, λ x. set_entity-level q prev r.1 x))
  | inr e ↦
      rw (e, retire_prev)
        (buried-Same q q (is_dead (q.threads prev).state) (prev ∷ q.dead_list) (refl, λ x. refl))
]

-- The thread that leaves the CPU changes neither the real-time queues nor any level.
pub leave_cpu-Same : (q : RunQueue) (prev : ℕ) (mode : PickMode) → Becomes q (leave_cpu q prev mode)
unfolding leave_cpu rt_level
leave_cpu-Same q prev mode =
    Becomes-if q (not (q.threads prev).is_idle && not (is_runnable q prev mode))
      (retire_prev q prev)
      (if is_current q.fair prev && is_yield mode
        then some (record q { fair = yield_current q.fair })
        else some q)
      (retire_prev-Same q prev)
      (Becomes-if q (is_current q.fair prev && is_yield mode)
        (some (record q { fair = yield_current q.fair })) (some q) (refl, λ x. refl)
        (refl, λ x. refl))
