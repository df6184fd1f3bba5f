-- ===== src/Pcp.antt =====
-- kernel/include/memory/pmm/pcp_cache.hpp: a per-CPU stack of free blocks, which is a ring of 256
-- frame numbers. The counters are 16-bit words. Blocks are pushed and popped at the tail and
-- drained from the head.
pub mod Ring
pub mod Tune
mod Tests
use erebus.Base.{
  ℕ, ◌+◌, ◌-◌, ◌/◌, ◌%◌, ◌^◌, min, max, Bool, Option, none, some, leb, ltb, ◌==◌, if◌then◌else◌,
}

pub record PcpList : Type 0 where
  pub head : ℕ
  pub tail : ℕ
  pub count : ℕ
  pub high : ℕ
  pub batch : ℕ
  pub pages : ℕ → ℕ

abbrev pub max_capacity : ℕ
max_capacity = 256

abbrev pub put : (ℕ → ℕ) → ℕ → ℕ → ℕ → ℕ
put f i a j = if i == j then a else f j

abbrev pub empty_list : PcpList
empty_list = record { head = 0; tail = 0; count = 0; high = 0; batch = 0; pages = λ i. 0 }

abbrev clamp : ℕ → ℕ → ℕ → ℕ
clamp v lo hi = if ltb v lo then lo else if ltb hi v then hi else v

abbrev divisor_for : ℕ → ℕ
divisor_for free_pages = if ltb free_pages 1024 then 4 else if ltb free_pages 8192 then 2 else 1

unfoldable pub tune : PcpList → ℕ → ℕ → PcpList
tune l free_pages order =
    let high = clamp (max_capacity / 2 ^ order / divisor_for free_pages) 1 max_capacity in
    record l { high = high; batch = clamp (32 / 2 ^ order / divisor_for free_pages) 1 high }

abbrev pub needs_drain : PcpList → Bool
needs_drain l = leb l.high l.count

unfoldable pub push_hot : PcpList → ℕ → PcpList
push_hot l p = record l {
  pages = put l.pages l.tail p;
  tail = (l.tail + 1) % max_capacity;
  count = (l.count + 1) % 2 ^ 16;
}

-- The mask makes of a tail of 0 the last slot.
unfoldable pub pop_hot : PcpList → PcpList × Option ℕ
pop_hot l = if l.count == 0 then (l, none) else (
  record l { tail = (l.tail + 255) % max_capacity; count = l.count - 1 },
  some (l.pages ((l.tail + 255) % max_capacity)),
)

unfoldable pub pop_cold : PcpList → PcpList × Option ℕ
pop_cold l = if l.count == 0 then (l, none) else (
  record l { head = (l.head + 1) % max_capacity; count = l.count - 1 },
  some (l.pages l.head),
)
