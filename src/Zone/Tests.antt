-- ===== src/Zone/Tests.antt =====
-- Concrete zones, and the theorems on zones at them.
use erebus.Base.{ℕ, ◌+◌, ◌^◌, ◌≤◌, ◌<◌, true, false, [], ◌∷◌, some, arith, ◌≡◌, refl}
use erebus.Zone.{
  MobilityZone, Page, PageState, is_free, can_merge, buddy_merge, extract_block, free_page_locked,
  flush_deferred_frees, give_back, take_buddy, buddy_of, merge_from, remove, lowest_active, pop_hot,
  mark_active, split_down, flush_from,
}
use erebus.Zone.Measure.{measure}
use erebus.Zone.Sound.{IsSound, can_merge-free}
use erebus.Zone.Conserve.{Extracts, buddy_merge_lem, extract_block_lem}
use erebus.Zone.Disjoint.{IsDisjoint, covers, buddy_merge-IsDisjoint, extract_block-IsDisjoint}
use erebus.Zone.Locked.{IsCounted, block_pages, block_pages-Additive, free_page_locked-IsCounted}

abbrev blank_page : Page
blank_page = record { state = PageState.active; mobility = 0; order = 0; numa_node = 0 }

abbrev pub blank_zone : MobilityZone
blank_zone = record {
  active_orders = λ o. false;
  areas = λ o. [];
  total_free_pages = 0;
  mobility = 1;
  node_id = 0;
  low_watermark = 2;
  deferred_frees = [];
  pages = λ p. blank_page;
  max_pfn = 1024;
  daemons_active = true;
}

blank_zone-IsSound : IsSound blank_zone
blank_zone-IsSound = record {
  linked = λ p o u m. absurd (let k : false ≡ true = (can_merge-free blank_zone p o m).0 in cc);
  bits = λ o. refl;
  orders = λ p. omega arith;
}

pub blank_zone-IsCounted : IsCounted blank_zone
unfolding measure
blank_zone-IsCounted = record { sound = blank_zone-IsSound; counted = refl }

-- Frames 4 to 7 are free.
abbrev upper_half : MobilityZone
upper_half = buddy_merge blank_zone 4 2

upper_half-IsSound : IsSound upper_half
upper_half-IsSound =
    (buddy_merge_lem block_pages blank_zone 4 2 block_pages-Additive (omega arith)
      blank_zone-IsSound).0

-- Both halves are free and become one block of order 3.
merged_block : (buddy_merge upper_half 0 2).areas 3 ≡ 0 ∷ []
unfolding buddy_merge merge_from give_back take_buddy can_merge buddy_of remove
merged_block = refl

buddy_merge_lem_example :
    IsSound (buddy_merge upper_half 0 2)
    × (measure block_pages (buddy_merge upper_half 0 2)
        ≡ measure block_pages upper_half + block_pages 2 0)
buddy_merge_lem_example =
    buddy_merge_lem block_pages upper_half 0 2 block_pages-Additive (omega arith) upper_half-IsSound

extract_block_lem_example : Extracts block_pages upper_half 1 (extract_block upper_half 1)
extract_block_lem_example =
    extract_block_lem block_pages upper_half 1 block_pages-Additive (omega arith) upper_half-IsSound

blank_zone-unused : (p : ℕ) → measure (covers p) blank_zone ≡ 0
unfolding measure
blank_zone-unused p = refl

blank_zone-IsDisjoint : IsDisjoint blank_zone
blank_zone-IsDisjoint p = let k = blank_zone-unused p in omega arith

buddy_merge-IsDisjoint_example : IsDisjoint (buddy_merge blank_zone 4 2)
buddy_merge-IsDisjoint_example =
    buddy_merge-IsDisjoint blank_zone 4 2 (omega arith) blank_zone-IsSound blank_zone-IsDisjoint
      (λ p l h. blank_zone-unused p)

upper_half-IsDisjoint : IsDisjoint upper_half
upper_half-IsDisjoint =
    buddy_merge-IsDisjoint blank_zone 4 2 (omega arith) blank_zone-IsSound blank_zone-IsDisjoint
      (λ p l h. blank_zone-unused p)

-- The block that serves an order of 1 is the lower half of frames 4 to 7.
extract_pair : extract_block upper_half 1 ≡ ((extract_block upper_half 1).0, some 4)
unfolding buddy_merge merge_from give_back take_buddy can_merge buddy_of remove extract_block
    lowest_active pop_hot mark_active split_down
extract_pair = refl

extract_block-IsDisjoint_example :
    IsDisjoint (extract_block upper_half 1).0
    × ((p : ℕ)
        → 4 ≤ p
        → p < 4 + 2 ^ 1
        → (measure (covers p) upper_half ≡ 1)
          × (measure (covers p) (extract_block upper_half 1).0 ≡ 0))
extract_block-IsDisjoint_example =
    extract_block-IsDisjoint upper_half 1 4 (extract_block upper_half 1).0 (omega arith)
      upper_half-IsSound upper_half-IsDisjoint extract_pair

-- A zone whose counter knows of a block of order 3, at frame 8.
abbrev pub stocked : MobilityZone
stocked = free_page_locked blank_zone 8 3

pub stocked-IsCounted : IsCounted stocked
stocked-IsCounted = free_page_locked-IsCounted blank_zone 8 3 (omega arith) blank_zone-IsCounted

pub stocked-active : is_free (stocked.pages 3).state ≡ false
unfolding free_page_locked flush_deferred_frees flush_from buddy_merge merge_from give_back
    can_merge buddy_of
stocked-active = refl
