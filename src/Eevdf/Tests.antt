-- ===== src/Eevdf/Tests.antt =====
-- kernel/src/sched/eevdf.cpp: runs at fixed inputs. `busy` has one entity running and two waiting;
-- the later deadline waits ahead of virtual time and is not eligible.
use erebus.Base.{
  ℕ, ◌+◌, ◌*◌, ◌^◌, ◌≤◌, ◌<◌, ◌≡◌, ◌↔◌, refl, true, Option, none, some, arith, ◌⊎◌, pos, negsuc,
  add64,
}
use erebus.Avl.{leaf, node}
use erebus.Avl.Order.{IsOrdered, place}
use erebus.Avl.Shape.{to_list}
use erebus.Eevdf.Entities.{Entity, to_virtual}
use erebus.Eevdf.{
  EevdfQueue, tree_traits, virtual_time, is_eligible_at, placed, enqueue, charge, pick,
}
use erebus.Eevdf.Sums.{members}
use erebus.Eevdf.Account.{IsConsistent, is_eligible_lem}
use erebus.Eevdf.Join.{enqueue-IsConsistent}
use erebus.Eevdf.Run.{charge-IsConsistent}
use erebus.Eevdf.Lag.{credit_kept, debt_kept, joined}
use erebus.Eevdf.Pick.{pick-Best, Best}

abbrev entity : ℕ → ℕ → ℕ → Entity
entity id vruntime vdeadline = record {
  id = id;
  weight = 1024;
  rate = 2 ^ 32;
  slice_ns = 2_000_000;
  vruntime = vruntime;
  vdeadline = vdeadline;
  vlag = pos 0;
}

abbrev first_waiting : Entity
first_waiting = entity 1 9_000_000 9_500_000

abbrev second_waiting : Entity
second_waiting = entity 2 5_000_000 10_000_000

abbrev running : Entity
running = entity 3 7_000_000 11_000_000

abbrev idle_running : EevdfQueue
idle_running = record {
  tree = node leaf first_waiting 5_000_000 2 (node leaf second_waiting 5_000_000 1 leaf);
  current = none;
  weighted_vruntime = 1024 * 14_000_000;
  total_weight = 2048;
  queued = 2;
  last_virtual_time = 0;
}

abbrev busy : EevdfQueue
busy = record idle_running {
  current = some running;
  weighted_vruntime = 1024 * 21_000_000;
  total_weight = 3072;
}

tree-IsOrdered : IsOrdered tree_traits busy.tree
tree-IsOrdered = record {
  valid =
      (refl, omega arith, omega arith, refl, tt, (refl, omega arith, omega arith, refl, tt, tt));
  sorted = ((refl, tt), (tt, tt));
}

busy-IsConsistent : IsConsistent busy
busy-IsConsistent = record {
  ordered = tree-IsOrdered;
  weighted_sum = refl;
  weight_sum = refl;
  count = refl;
  words = omega arith;
  weight_fits = omega arith;
  count_fits = omega arith;
  time_fits = omega arith;
}

idle-IsConsistent : IsConsistent idle_running
idle-IsConsistent = record {
  ordered = tree-IsOrdered;
  weighted_sum = refl;
  weight_sum = refl;
  count = refl;
  words = omega arith;
  weight_fits = omega arith;
  count_fits = omega arith;
  time_fits = omega arith;
}

-- The earlier deadline is passed over, as it is past virtual time.
picks_eligible : pick idle_running ≡ some second_waiting
unfolding pick is_eligible_at
picks_eligible = refl

pick-Best_example : Best busy (members busy) (pick busy)
pick-Best_example = pick-Best busy busy-IsConsistent (λ e. cc e)

abbrev newcomer : Entity
newcomer = record (entity 4 0 0) { vlag = pos 1_000_000 }

abbrev debtor : Entity
debtor = record (entity 5 0 0) { vlag = negsuc 999_999 }

abbrev result : Option EevdfQueue → EevdfQueue
result none = busy
result (some q) = q

abbrev results : Option (EevdfQueue × Entity) → EevdfQueue × Entity
results none = (busy, running)
results (some r) = r

abbrev enqueued : EevdfQueue
enqueued = result (enqueue busy newcomer)

enqueue-IsConsistent_example :
    IsConsistent enqueued
    × (to_list enqueued.tree ≡ place tree_traits.less (placed busy newcomer) (to_list busy.tree))
    × (enqueued.current ≡ some running)
unfolding enqueue
enqueue-IsConsistent_example =
    enqueue-IsConsistent busy enqueued newcomer busy-IsConsistent
      (record { weight = omega arith; sum = omega arith; count = omega arith }) refl

-- The charge runs past the deadline.
charge-IsConsistent_example :
    IsConsistent (charge busy 5_000_000).0
    × ((y : Entity) × ((charge busy 5_000_000).0.current ≡ some y)
        × (y.vruntime ≡ 7_000_000 + to_virtual running 5_000_000)
        × (y.weight ≡ 1024)
        × (((charge busy 5_000_000).1 ≡ true) ↔ (11_000_000 ≤ y.vruntime))
        × (11_000_000 ≤ y.vruntime → y.vdeadline ≡ add64 y.vruntime (to_virtual running 2_000_000))
        × (y.vruntime < 11_000_000 → y.vdeadline ≡ 11_000_000))
unfolding to_virtual
charge-IsConsistent_example =
    charge-IsConsistent busy running 5_000_000 busy-IsConsistent refl (omega arith)

credit_kept_example :
    let v = (placed busy newcomer).vruntime in
    let now = virtual_time (joined busy newcomer) in
    (now ≤ v + 1_000_000) × (v + 1_000_000 ≤ now + 1)
unfolding virtual_time
credit_kept_example =
    credit_kept busy newcomer 1_000_000 busy-IsConsistent (omega arith) (omega arith) (omega arith)
      refl (omega arith) (omega arith)

debt_kept_example :
    let v = (placed busy debtor).vruntime in
    let now = virtual_time (joined busy debtor) in (v ≤ now + 1_000_000) × (now + 1_000_000 ≤ v + 1)
unfolding virtual_time
debt_kept_example =
    debt_kept busy debtor 999_999 busy-IsConsistent (omega arith) (omega arith) (omega arith) refl
      (omega arith) (omega arith)

is_eligible_lem_example :
    ((0 < busy.total_weight)
      × ((is_eligible_at busy 7_000_000 ≡ true) ↔ (7_000_000 ≤ virtual_time busy)))
    ⊎ ((busy.total_weight ≡ 0) × (is_eligible_at busy 7_000_000 ≡ true))
is_eligible_lem_example = is_eligible_lem busy 7_000_000 busy-IsConsistent (omega arith)
