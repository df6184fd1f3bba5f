-- ===== src/RunQueue.antt =====
-- kernel/src/sched/runqueue.cpp and kernel/include/sched/runqueue.hpp: the run queue of one CPU, as
-- two real-time FIFOs above the fair queue. Threads are known by the id of their entity, and a
-- store holds what the run queue reads and writes of them; while a thread is in the fair queue its
-- entity is the one there. An assertion of the code that fails is `none`. Everything here runs
-- with the queue's lock held.
pub mod Fifo
pub mod Pick
mod Tests
use erebus.Base.{
  ℕ, zero, suc, ◌+◌, ◌-◌, ◌*◌, ◌%◌, ◌^◌, Bool, true, false, not, ◌&&◌, ◌||◌, Option, none, some,
  List, [], ◌∷◌, ◌++◌, leb, ltb, ◌==◌, if◌then◌else◌, add32, sub32, add64, is_some,
}
use erebus.Eevdf.{EevdfQueue, charge}
use erebus.Eevdf.Entities.{Entity}

pub data PriorityClass : Type 0 where
  idle background normal high real_time test_runner : PriorityClass

pub data ThreadState : Type 0 where
  created ready running blocked sleeping dead : ThreadState

pub data PickMode : Type 0 where
  voluntary yield preempted : PickMode

-- What the run queue uses of a thread.
pub record Thread : Type 0 where
  pub entity : Entity
  pub priority_class : PriorityClass
  pub is_idle : Bool
  pub is_pinned : Bool
  pub state : ThreadState
  pub on_runqueue : Bool

pub record RtFifo : Type 0 where
  pub list : List ℕ
  pub tail : Option ℕ

pub record RunQueue : Type 0 where
  pub threads : ℕ → Thread
  pub fair : EevdfQueue
  pub realtime : ℕ → RtFifo
  pub dead_list : List ℕ
  pub waiting : ℕ
  pub stealable : ℕ
  pub current : ℕ
  pub idle_thread : ℕ
  pub running_realtime : Bool
  pub charged_until_ns : ℕ
  pub switches : ℕ
  pub has_domain : Bool
  pub overloaded : Bool
  pub busy : Bool

abbrev pub rt_levels : ℕ
rt_levels = 2

abbrev pub steal_scan_limit : ℕ
steal_scan_limit = 8

abbrev pub put : {A : Type 0} → (ℕ → A) → ℕ → A → ℕ → A
put f i a j = if i == j then a else f j

abbrev pub is_nil : List ℕ → Bool
is_nil [] = true
is_nil (x ∷ xs) = false

abbrev pub class_level : PriorityClass → ℕ
class_level PriorityClass.test_runner = 0
class_level PriorityClass.real_time = 1
class_level _ = 2

unfoldable pub rt_level : RunQueue → ℕ → ℕ
rt_level q id = class_level (q.threads id).priority_class

unfoldable pub highest_rt_level : RunQueue → ℕ
highest_rt_level q =
    if not (is_nil (q.realtime 0).list)
    then 0
    else if not (is_nil (q.realtime 1).list)
    then 1
    else rt_levels

unfoldable pub account_added : RunQueue → ℕ → RunQueue
account_added q id =
    if (q.threads id).is_pinned then record q { waiting = add32 q.waiting 1 } else record q {
      waiting = add32 q.waiting 1;
      stealable = add32 q.stealable 1;
      overloaded = if q.stealable == 0 && q.has_domain then true else q.overloaded;
    }

unfoldable pub account_removed : RunQueue → ℕ → RunQueue
account_removed q id =
    if (q.threads id).is_pinned then record q { waiting = sub32 q.waiting 1 } else record q {
      waiting = sub32 q.waiting 1;
      stealable = sub32 q.stealable 1;
      overloaded = if q.stealable == 1 && q.has_domain then false else q.overloaded;
    }

-- `insert_after` at the iterator of a thread of the list.
unfoldable pub insert_after : ℕ → ℕ → List ℕ → List ℕ
insert_after at id [] = []
insert_after at id (x ∷ xs) =
    let rest = insert_after at id xs in if x == at then x ∷ id ∷ xs else x ∷ rest

-- `push_realtime` on one FIFO. The tail of a FIFO that is not empty is a thread of its list; without
-- one, which the code would dereference, nothing is inserted.
unfoldable pub push_fifo : RtFifo → ℕ → Bool → RtFifo
unfolding insert_after
push_fifo f id at_front =
    if at_front || is_nil f.list
    then record { list = id ∷ f.list; tail = if is_nil f.list then some id else f.tail }
    else record {
      list = elim f.tail [ none ↦ f.list | some t ↦ insert_after t id f.list ];
      tail = some id;
    }

unfoldable pub push_realtime : RunQueue → ℕ → Bool → RunQueue
unfolding push_fifo rt_level
push_realtime q id at_front = record q {
  realtime = put q.realtime (rt_level q id) (push_fifo (q.realtime (rt_level q id)) id at_front);
}

unfoldable pub pop_fifo : RtFifo → RtFifo × Option ℕ
pop_fifo f = elim f.list [
  | [] ↦ (record f { tail = none }, none)
  | x ∷ xs ↦ (record { list = xs; tail = if is_nil xs then none else f.tail }, some x)
]

unfoldable pub pop_realtime : RunQueue → ℕ → RunQueue × Option ℕ
unfolding pop_fifo
pop_realtime q level =
    let (f, id) = pop_fifo (q.realtime level) in
    (record q { realtime = put q.realtime level f }, id)

-- The loop of `remove_realtime`: the rest of the list without the thread, and what is before it.
unfoldable pub erase_from : Option ℕ → List ℕ → ℕ → Option (List ℕ × Option ℕ)
erase_from before [] id = none
erase_from before (x ∷ xs) id =
    let rest = erase_from (some x) xs id in
    if x == id then some (xs, before) else elim rest [ none ↦ none | some r ↦ some (x ∷ r.0, r.1) ]

unfoldable pub remove_fifo : RtFifo → ℕ → Option RtFifo
unfolding erase_from
remove_fifo f id = elim (erase_from none f.list id) [
  | none ↦ none
  | some r ↦ some (record {
    list = r.0;
    tail = elim f.tail [ none ↦ none | some t ↦ if t == id then r.1 else some t ];
  })
]

unfoldable pub remove_realtime : RunQueue → ℕ → RunQueue × Bool
unfolding remove_fifo rt_level
remove_realtime q id = elim (remove_fifo (q.realtime (rt_level q id)) id) [
  | none ↦ (q, false)
  | some f ↦ (record q { realtime = put q.realtime (rt_level q id) f }, true)
]

unfoldable pub update_clock_locked : RunQueue → ℕ → RunQueue
unfolding charge
update_clock_locked q now_ns =
    if ltb q.charged_until_ns now_ns
    then record q {
      fair = (charge q.fair (now_ns - q.charged_until_ns)).0;
      charged_until_ns = now_ns;
    }
    else q

abbrev pub update_thread : RunQueue → ℕ → Thread → RunQueue
update_thread q id t = record q { threads = put q.threads id t }

abbrev pub mark_queued : RunQueue → ℕ → RunQueue
mark_queued q id =
    update_thread q id (record (q.threads id) { on_runqueue = true; state = ThreadState.ready })

abbrev pub set_on_runqueue : RunQueue → ℕ → Bool → RunQueue
set_on_runqueue q id on = update_thread q id (record (q.threads id) { on_runqueue = on })

abbrev pub set_entity : RunQueue → ℕ → Entity → RunQueue
set_entity q id e = update_thread q id (record (q.threads id) { entity = e })

-- Without the random state.
unfoldable pub initialize : RunQueue → Bool → ℕ → RunQueue
initialize q has_domain idle_thread = record q {
  has_domain = has_domain;
  idle_thread = idle_thread;
  current = idle_thread;
}

unfoldable pub load : RunQueue → ℕ
load q = add32 q.waiting (if q.current == q.idle_thread then 0 else 1)

unfoldable pub publish_idle : RunQueue → RunQueue
publish_idle q = if q.has_domain then record q { busy = false } else q
