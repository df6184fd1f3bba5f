-- ===== src/Pcp/Tune.antt =====
-- How a per-CPU list is sized.
use erebus.Base.{ℕ, ◌≤◌, arith}
use erebus.Pcp.{PcpList, tune, max_capacity}

-- A tuned list moves at least one block at a time, never more than it drains at, and drains no
-- later than when it is full.
pub tune_bounds :
    (l : PcpList) (free_pages order : ℕ)
    → (1 ≤ (tune l free_pages order).batch)
      × ((tune l free_pages order).batch ≤ (tune l free_pages order).high)
      × ((tune l free_pages order).high ≤ max_capacity)
unfolding tune
tune_bounds l free_pages order = ground arith
