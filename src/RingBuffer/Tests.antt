-- ===== src/RingBuffer/Tests.antt =====
-- kernel/include/utils/ring_buffer.hpp: one value goes through.
use erebus.Base.Family.{put}
use erebus.RingBuffer.{away, trying, ready, writing, publishing, waiting, System}

abbrev passed : System
passed = record {
  ring = record {
    head = 1;
    tail = 1;
    sequence = put (put (λ i. i) 0 1) 0 512;
    data_at = put (λ i. 0) 0 7;
    pushed = put (λ i. 0) 0 7;
    taken = put (λ i. 0) 0 7;
  };
  producers =
      put
        (put (put (put (put (λ i. away) 0 (trying 7 0)) 0 (ready 7 0)) 0 (writing 7 0)) 0
          (publishing 7 0))
        0 away;
  consumer = waiting;
}
