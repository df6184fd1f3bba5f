-- ===== src/Zone/Boot.antt =====
-- kernel/include/memory/pmm/mobility-zone.hpp and free_area.hpp: what is done to a zone at boot.
use erebus.Base.{ℕ, zero, suc, ◌/◌, ◌^◌, true, List, [], ◌∷◌, ◌++◌, mul64}
use erebus.Pcp.{PcpList, tune}
use erebus.Zone.{MobilityZone, put, add_free_pages}
use erebus.Zone.Cached.{pcp_max_order}

-- `FreeArea::push_cold`.
unfoldable pub push_cold : ℕ → List ℕ → List ℕ
push_cold pfn blocks = blocks ++ (pfn ∷ [])

unfoldable pub inject_free_page_cold : MobilityZone → ℕ → ℕ → MobilityZone
unfolding push_cold
inject_free_page_cold z pfn order =
    add_free_pages
      (record z {
        areas = put z.areas order (push_cold pfn (z.areas order));
        active_orders = put z.active_orders order true;
      })
      (2 ^ order)

pub record ZoneWatermarks : Type 0 where
  pub min : ℕ
  pub low : ℕ
  pub high : ℕ

unfoldable pub watermarks_of : ℕ → ZoneWatermarks
watermarks_of pages = record {
  min = pages / 100;
  low = mul64 pages 3 / 100;
  high = mul64 pages 5 / 100;
}

-- Of the watermarks, the zone model keeps the low one, the only one that is read.
unfoldable pub set_watermarks : MobilityZone → ℕ → MobilityZone
unfolding watermarks_of
set_watermarks z pages = record z { low_watermark = (watermarks_of pages).low }

-- The lists of one CPU, by order, and of all CPUs.
unfoldable pub tune_lists : ℕ → ℕ → (ℕ → PcpList) → ℕ → PcpList
unfolding tune
tune_lists zero pages lists = lists
tune_lists (suc n) pages lists = put (tune_lists n pages lists) n (tune (lists n) (pages / 2 ^ n) n)

unfoldable pub tune_cpus : ℕ → ℕ → (ℕ → ℕ → PcpList) → ℕ → ℕ → PcpList
unfolding tune_lists
tune_cpus zero pages caches = caches
tune_cpus (suc n) pages caches =
    put (tune_cpus n pages caches) n (tune_lists (suc pcp_max_order) pages (caches n))

unfoldable pub tune_pcp : MobilityZone → ℕ → (ℕ → ℕ → PcpList) → ℕ → ℕ → PcpList
unfolding tune_cpus
tune_pcp z total_cpus caches = tune_cpus total_cpus z.total_free_pages caches
