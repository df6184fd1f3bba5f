-- ===== src/RunQueue/Pick.antt =====
-- kernel/src/sched/runqueue.cpp: what is done to the run queue under its lock, and the choice of
-- the thread that runs next.
pub mod Order
pub mod Rank
use erebus.Base.{
  ℕ, zero, suc, ◌+◌, ◌-◌, ◌^◌, ◌%◌, Bool, true, false, not, ◌&&◌, ◌||◌, Option, none, some, List,
  [], ◌∷◌, leb, ltb, ◌==◌, if◌then◌else◌, add64, add32, is_some,
}
use erebus.Eevdf.{
  EevdfQueue, enqueue, dequeue, set_current, requeue_current, retire_current, yield_current, pick,
  preempts_current, is_queued, is_current, find_latest, placed,
}
use erebus.Eevdf.Entities.{Entity}
use erebus.RunQueue.{
  RunQueue, Thread, ThreadState, PickMode, rt_levels, steal_scan_limit, rt_level, highest_rt_level,
  account_added, account_removed, push_realtime, pop_realtime, remove_realtime, mark_queued,
  set_on_runqueue, set_entity,
}

-- The answer of `enqueue_locked`: whether the thread is to take the CPU from the running one.
unfoldable pub preempts : RunQueue → ℕ → Bool
unfolding rt_level preempts_current
preempts q id =
    let level = rt_level q id in
    let running_level = rt_level q q.current in
    if q.current == q.idle_thread
    then true
    else if ltb level rt_levels || ltb running_level rt_levels
    then ltb level running_level
    else preempts_current q.fair (q.threads id).entity

-- `m_fair.enqueue(thread)`, with the entity as the fair queue has placed it written back.
unfoldable pub enqueue_fair : RunQueue → ℕ → Option RunQueue
unfolding enqueue placed
enqueue_fair q id = elim (enqueue q.fair (q.threads id).entity) [
  | none ↦ none
  | some fair ↦
      some (record (set_entity q id (placed q.fair (q.threads id).entity)) { fair = fair })
]

abbrev pub enqueue_tail : Option RunQueue → ℕ → Option (RunQueue × Bool)
enqueue_tail none id = none
enqueue_tail (some q) id = let q' = account_added q id in some (q', preempts q' id)

unfoldable pub enqueue_locked : RunQueue → ℕ → Option (RunQueue × Bool)
unfolding rt_level push_realtime enqueue_fair account_added preempts
enqueue_locked q id =
    let queued = mark_queued q id in
    if (q.threads id).is_idle
    then none
    else if ltb (rt_level q id) rt_levels
    then enqueue_tail (some (push_realtime queued id false)) id
    else enqueue_tail (enqueue_fair queued id) id

abbrev pub removed : RunQueue → ℕ → RunQueue
removed q id = account_removed (set_on_runqueue q id false) id

unfoldable pub remove_locked : RunQueue → ℕ → RunQueue × Bool
unfolding rt_level remove_realtime is_queued dequeue account_removed
remove_locked q id =
    if not (q.threads id).on_runqueue
    then (q, false)
    else if ltb (rt_level q id) rt_levels
    then (let (q', found) = remove_realtime q id in
        if found then (removed q' id, true) else (q, false))
    else elim (dequeue q.fair id) [
      | none ↦ (q, false)
      | some (fair, e) ↦ (removed (record (set_entity q id e) { fair = fair }) id, true)
    ]

unfoldable pub requeue_current_fair : RunQueue → Option RunQueue
unfolding requeue_current account_added
requeue_current_fair q = elim q.fair.current [
  | none ↦ none
  | some e ↦ elim (requeue_current q.fair) [
    | none ↦ none
    | some fair ↦
        some (account_added (mark_queued (record (set_entity q e.id e) { fair = fair }) e.id) e.id)
  ]
]

unfoldable pub requeue_realtime : RunQueue → ℕ → Bool → RunQueue
unfolding push_realtime account_added
requeue_realtime q id at_front = account_added (mark_queued (push_realtime q id at_front) id) id

unfoldable pub switch_in : RunQueue → ℕ → ℕ → RunQueue
unfolding rt_level
switch_in q next prev = record (set_on_runqueue q next false) {
  current = next;
  running_realtime = ltb (rt_level q next) rt_levels;
  switches = add64 q.switches 1;
  busy = if (q.threads prev).is_idle && q.has_domain then true else q.busy;
}

abbrev pub is_preempted : PickMode → Bool
is_preempted PickMode.preempted = true
is_preempted _ = false

abbrev pub is_yield : PickMode → Bool
is_yield PickMode.yield = true
is_yield _ = false

abbrev pub is_running : ThreadState → Bool
is_running ThreadState.running = true
is_running _ = false

abbrev pub is_dead : ThreadState → Bool
is_dead ThreadState.dead = true
is_dead _ = false

unfoldable pub is_runnable : RunQueue → ℕ → PickMode → Bool
is_runnable q prev mode =
    not (q.threads prev).is_idle && (is_preempted mode || is_running (q.threads prev).state)

-- The thread that leaves the CPU for good gives up its place in the fair queue, and is remembered
-- if it is dead; one that yields pushes its deadline back.
unfoldable pub retire_prev : RunQueue → ℕ → Option RunQueue
unfolding is_current retire_current
retire_prev q prev =
    let buried = λ (r : RunQueue).
      if is_dead (q.threads prev).state then record r { dead_list = prev ∷ q.dead_list } else r in
    elim (is_current q.fair prev) [
      | false ↦ some (buried q)
      | true ↦ elim (retire_current q.fair) [
        | none ↦ none
        | some (fair, e) ↦ some (buried (record (set_entity q prev e) { fair = fair }))
      ]
    ]

unfoldable pub leave_cpu : RunQueue → ℕ → PickMode → Option RunQueue
unfolding is_runnable retire_prev is_current yield_current
leave_cpu q prev mode =
    if not (q.threads prev).is_idle && not (is_runnable q prev mode)
    then retire_prev q prev
    else if is_current q.fair prev && is_yield mode
    then some (record q { fair = yield_current q.fair })
    else some q

-- The real-time thread at the head of the highest level runs next.
unfoldable pub run_realtime : RunQueue → ℕ → ℕ → Option (RunQueue × ℕ)
unfolding pop_realtime account_removed switch_in
run_realtime q top prev =
    let (q', id) = pop_realtime q top in
    elim id [ none ↦ none | some next ↦ some (switch_in (account_removed q' next) next prev, next) ]

-- The choice among fair threads, and the idle thread when there is none.
unfoldable pub run_fair : RunQueue → ℕ → Option (RunQueue × ℕ)
unfolding pick is_current requeue_current_fair set_current account_removed switch_in
run_fair q prev = elim (pick q.fair) [
  | none ↦
      if prev == q.idle_thread
      then some (q, prev)
      else some (switch_in q q.idle_thread prev, q.idle_thread)
  | some chosen ↦
      if is_current q.fair chosen.id
      then some (q, prev)
      else (let waiting = if is_some q.fair.current then requeue_current_fair q else some q in
          elim waiting [
            | none ↦ none
            | some q' ↦ elim (set_current q'.fair chosen.id) [
              | none ↦ none
              | some fair ↦ some (
                switch_in (account_removed (record q' { fair = fair }) chosen.id) chosen.id prev,
                chosen.id,
              )
            ]
          ])
]

-- The choice once the thread that ran has left the CPU. `runnable` and `prev_fair` are what they
-- were when it did.
unfoldable pub choose : RunQueue → ℕ → PickMode → Bool → Bool → Option (RunQueue × ℕ)
unfolding highest_rt_level rt_level requeue_realtime requeue_current_fair run_realtime run_fair
choose q prev mode runnable prev_fair =
    let top = highest_rt_level q in
    let prev_level = rt_level q prev in
    let prev_rt = runnable && ltb prev_level rt_levels in
    let outranked = ltb top prev_level || top == prev_level && is_yield mode in
    if ltb top rt_levels
    then if prev_rt && not outranked
      then some (q, prev)
      else if prev_rt
      then run_realtime (requeue_realtime q prev (is_preempted mode)) top prev
      else if runnable && prev_fair
      then elim (requeue_current_fair q) [ none ↦ none | some q' ↦ run_realtime q' top prev ]
      else run_realtime q top prev
    else if prev_rt
    then some (q, prev)
    else run_fair q prev

unfoldable pub pick_next_locked : RunQueue → ℕ → PickMode → Option (RunQueue × ℕ)
unfolding is_runnable is_current leave_cpu choose
pick_next_locked q prev mode = elim (leave_cpu q prev mode) [
  | none ↦ none
  | some q' ↦ choose q' prev mode (is_runnable q prev mode) (is_current q.fair prev)
]

unfoldable pub should_switch_locked : RunQueue → Bool
unfolding rt_level highest_rt_level pick
should_switch_locked q =
    let running_level = rt_level q q.current in
    let top = highest_rt_level q in
    if q.current == q.idle_thread
    then not (q.waiting == 0)
    else if ltb top rt_levels
    then ltb top running_level
    else leb rt_levels running_level
      && not (elim (pick q.fair) [
        | none ↦ not (is_some q.fair.current)
        | some e ↦ is_current q.fair e.id
      ])

unfoldable pub wants_timer_locked : RunQueue → Bool
wants_timer_locked q = is_some q.fair.current && not (q.waiting == 0)

-- Threads that this queue can do without; the one that runs counts if it is a real-time one.
unfoldable pub spare : RunQueue → ℕ
spare q = if not (q.stealable == 0) && q.running_realtime then add32 q.stealable 1 else q.stealable

-- A scan for an unpinned thread finds one, runs out of its budget, or has some of it left.
pub data Scan : Type 0 where
  found : ℕ → Scan
  gave_up : Scan
  left : ℕ → Scan

unfoldable pub scan_level : RunQueue → ℕ → List ℕ → Scan
scan_level q budget [] = left budget
scan_level q zero (x ∷ xs) = gave_up
scan_level q (suc budget) (x ∷ xs) = elim (q.threads x).is_pinned [
  | false ↦ found x
  | true ↦ scan_level q budget xs
]

unfoldable pub find_stealable : RunQueue → Option ℕ
unfolding scan_level find_latest
find_stealable q = elim (scan_level q steal_scan_limit (q.realtime 0).list) [
  | found x ↦ some x
  | gave_up ↦ none
  | left budget ↦ elim (scan_level q budget (q.realtime 1).list) [
    | found x ↦ some x
    | gave_up ↦ none
    | left rest ↦ elim (find_latest q.fair (λ e. not (q.threads e.id).is_pinned) rest) [
      | none ↦ none
      | some e ↦ some e.id
    ]
  ]
]

-- `free` says whether the victim's lock is had at the first try.
unfoldable pub try_steal : Bool → RunQueue → ℕ → RunQueue × Option ℕ
unfolding spare find_stealable remove_locked
try_steal free q enough =
    if ltb (spare q) enough || not free
    then (q, none)
    else elim (find_stealable q) [ none ↦ (q, none) | some id ↦ ((remove_locked q id).0, some id) ]
