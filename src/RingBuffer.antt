-- ===== src/RingBuffer.antt =====
-- kernel/include/utils/ring_buffer.hpp: the bounded lock-free queue with many producers and one
-- consumer, at the capacity that the page allocator gives it. One atomic access or one use of a
-- slot's data is one step. Tickets and sequence numbers are 64-bit words. A ring is followed
-- while fewer than 2 ^ 64 - 512 tickets have been taken, so that none has wrapped.
pub mod Invariant
pub mod Pops
pub mod Pushes
pub mod Order
mod Tests
use erebus.Base.{
  ℕ, ◌+◌, ◌%◌, ◌^◌, ◌≤◌, ◌<◌, Bool, true, false, ◌==◌, if◌then◌else◌, ◌≡◌, ◌≢◌, add64, sub64,
}
use erebus.Base.Family.{put}

abbrev pub capacity : ℕ
capacity = 512

-- The indices and the slots, by their places. `pushed` and `taken` are not in the code: the value that
-- each ticket was taken for, and what the consumer got at each.
pub record RingBuffer : Type 0 where
  pub head : ℕ
  pub tail : ℕ
  pub sequence : ℕ → ℕ
  pub data_at : ℕ → ℕ
  pub pushed : ℕ → ℕ
  pub taken : ℕ → ℕ

abbrev pub slot : ℕ → ℕ
slot ticket = ticket % capacity

-- A producer in `try_emplace`, with its value and `head`: before the load of the sequence, before the
-- exchange, before the data is written and before it is published.
pub data Producer : Type 0 where
  away : Producer
  trying ready writing publishing : ℕ → ℕ → Producer

-- The consumer in `try_dequeue`: before the load of the sequence, before the data is read, before the
-- slot is given back and before `tail` moves on.
pub data Consumer : Type 0 where
  waiting full emptied freed : Consumer

-- `static_cast<std::intptr_t>(seq - head)` is zero, negative or positive.
pub data Push (r : RingBuffer) : Producer → RingBuffer → Producer → Type 0 where
  start : (v : ℕ) → Push r away r (trying v r.head)
  turn : {v h : ℕ} → sub64 (r.sequence (slot h)) h ≡ 0 → Push r (trying v h) r (ready v h)
  no_room : {v h : ℕ} → 2 ^ 63 ≤ sub64 (r.sequence (slot h)) h → Push r (trying v h) r away
  behind :
      {v h : ℕ}
      → 0 < sub64 (r.sequence (slot h)) h
      → sub64 (r.sequence (slot h)) h < 2 ^ 63
      → Push r (trying v h) r (trying v r.head)
  exchange :
      {v h : ℕ}
      → r.head ≡ h
      → Push r (ready v h) (record r { head = add64 h 1; pushed = put r.pushed h v }) (writing v h)
  beaten : {v h : ℕ} → Push r (ready v h) r (trying v r.head)
  write :
      {v h : ℕ}
      → Push r (writing v h) (record r { data_at = put r.data_at (slot h) v }) (publishing v h)
  publish :
      {v h : ℕ}
      → Push r (publishing v h) (record r { sequence = put r.sequence (slot h) (add64 h 1) }) away

pub data Pop (r : RingBuffer) : Consumer → RingBuffer → Consumer → Type 0 where
  found : sub64 (r.sequence (slot r.tail)) (add64 r.tail 1) ≡ 0 → Pop r waiting r full
  move_out : Pop r full (record r { taken = put r.taken r.tail (r.data_at (slot r.tail)) }) emptied
  give_back :
      Pop r emptied
        (record r { sequence = put r.sequence (slot r.tail) (add64 r.tail capacity) })
        freed
  step_on : Pop r freed (record r { tail = add64 r.tail 1 }) waiting

pub record System : Type 0 where
  pub ring : RingBuffer
  pub producers : ℕ → Producer
  pub consumer : Consumer

pub data Step (s : System) : System → Type 0 where
  push :
      (i : ℕ) {r : RingBuffer} {p : Producer}
      → Push s.ring (s.producers i) r p
      → Step s (record s { ring = r; producers = put s.producers i p })
  pop :
      {r : RingBuffer} {c : Consumer}
      → Pop s.ring s.consumer r c
      → Step s (record s { ring = r; consumer = c })

abbrev pub empty_ring : RingBuffer
empty_ring = record {
  head = 0;
  tail = 0;
  sequence = λ i. i;
  data_at = λ i. 0;
  pushed = λ i. 0;
  taken = λ i. 0;
}

-- What a ring can reach, as long as no ticket has wrapped.
pub data Reach : System → Type 0 where
  begin : Reach (record { ring = empty_ring; producers = λ i. away; consumer = waiting })
  later : {s t : System} → Reach s → s.ring.head + capacity < 2 ^ 64 → Step s t → Reach t
