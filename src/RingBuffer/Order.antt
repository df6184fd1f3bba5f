-- ===== src/RingBuffer/Order.antt =====
-- kernel/include/utils/ring_buffer.hpp: the consumer gets what the producers put in, ticket by ticket.
use erebus.Base.{ℕ, zero, suc, List, [], ◌∷◌, ◌++◌}

-- The values at the first tickets, in their order.
abbrev pub log : (ℕ → ℕ) → ℕ → List ℕ
log values zero = []
log values (suc n) = log values n ++ (values n ∷ [])
