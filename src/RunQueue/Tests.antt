-- ===== src/RunQueue/Tests.antt =====
-- Run queues with a real-time thread, and the theorems on run queues at them.
use erebus.Base.{
  ℕ, true, false, none, some, [], ◌∷◌, ◌==◌, if◌then◌else◌, arith, refl, inl, inr, Bool-cases,
  ==→eq,
}
use erebus.Eevdf.{empty_queue}
use erebus.Eevdf.Entities.{new_entity}
use erebus.RunQueue.{
  RunQueue, RtFifo, Thread, PriorityClass, ThreadState, PickMode, put, rt_level, push_fifo,
  pop_fifo,
}
use erebus.RunQueue.Fifo.{PopsFront, Pushes, fifo_lem}
use erebus.RunQueue.Pick.{pick_next_locked}
use erebus.RunQueue.Pick.Order.{IsLevelled, Picks}
use erebus.RunQueue.Pick.Rank.{pick_next_locked-Picks}

abbrev idle_fifo : RtFifo
idle_fifo = record { list = []; tail = none }

abbrev one_waiting : RtFifo
one_waiting = record { list = 1 ∷ []; tail = some 1 }

abbrev thread_of : PriorityClass → ℕ → Thread
thread_of c id = record {
  entity = new_entity id;
  priority_class = c;
  is_idle = false;
  is_pinned = false;
  state = ThreadState.running;
  on_runqueue = false;
}

-- Thread 1 is a real-time one and waits while thread 2, a fair one, runs.
abbrev busy_queue : RunQueue
busy_queue = record {
  threads = λ id.
      if id == 1 then thread_of PriorityClass.real_time 1 else thread_of PriorityClass.normal id;
  fair = empty_queue;
  realtime = put (λ level. idle_fifo) 1 one_waiting;
  dead_list = [];
  waiting = 1;
  stealable = 1;
  current = 2;
  idle_thread = 0;
  running_realtime = false;
  charged_until_ns = 0;
  switches = 0;
  has_domain = true;
  overloaded = true;
  busy = true;
}

busy_queue-IsLevelled : IsLevelled busy_queue
unfolding rt_level
busy_queue-IsLevelled level = elim (Bool-cases (1 == level)) [
  | inl e ↦ rw e (==→eq 1 level e, tt)
  | inr e ↦ rw e tt
]

pick_next_locked-Picks_example :
    Picks busy_queue 1 (pick_next_locked busy_queue 2 PickMode.preempted)
pick_next_locked-Picks_example =
    pick_next_locked-Picks busy_queue 2 PickMode.preempted 1 busy_queue-IsLevelled (omega arith)
      refl

fifo_lem_example :
    Pushes one_waiting 3 false (push_fifo one_waiting 3 false)
    × PopsFront one_waiting (pop_fifo one_waiting)
fifo_lem_example = fifo_lem one_waiting 3 false (refl, (refl, tt)) refl
