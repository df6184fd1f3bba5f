-- ===== src/Zone/Cached/Tests.antt =====
-- The cached paths at a concrete zone and list.
use erebus.Base.{true, arith, refl}
use erebus.Pcp.{PcpList, empty_list, tune}
use erebus.Pcp.Ring.{IsRing}
use erebus.Pcp.Tune.{tune_bounds}
use erebus.Zone.Tests.{stocked, stocked-IsCounted, stocked-active}
use erebus.Zone.Cached.{alloc_pages, free_page}
use erebus.Zone.Cached.Keeps.{IsTuned, IsCached}
use erebus.Zone.Cached.Paths.{alloc_pages-IsCached, free_page-IsCached}

abbrev fresh : PcpList
fresh = tune empty_list 10000 0

fresh-IsRing : IsRing fresh
unfolding tune
fresh-IsRing = record { head_lt = omega arith; count_le = omega arith; tail_eq = refl }

fresh-IsTuned : IsTuned fresh
fresh-IsTuned =
    let b = tune_bounds empty_list 10000 0 in
    record { ring = fresh-IsRing; batch_pos = b.0; batch_le = b.1; high_le = b.2 }

fresh-IsCached : IsCached stocked fresh
fresh-IsCached = record { zone = stocked-IsCounted; list = fresh-IsTuned }

alloc_pages-IsCached_example :
    IsCached (alloc_pages true stocked fresh 0).0 (alloc_pages true stocked fresh 0).1
alloc_pages-IsCached_example =
    alloc_pages-IsCached true stocked fresh 0 (omega arith) fresh-IsCached

-- Frame 3 is not free.
free_page-IsCached_example :
    IsCached (free_page true true stocked fresh 3 0).0 (free_page true true stocked fresh 3 0).1
free_page-IsCached_example =
    free_page-IsCached true true stocked fresh 3 0 (omega arith) stocked-active fresh-IsCached
