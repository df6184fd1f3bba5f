-- ===== src/Zone/Steal.antt =====
-- A block that one zone steals from another: what leaves the one and what the other takes in.
use erebus.Base.{
  ℕ, zero, suc, ◌+◌, ◌-◌, ◌%◌, ◌^◌, ◌≤◌, ◌<◌, Bool, true, false, [], Option, none, some, ◌==◌,
  arith, add64, ◌≡◌, refl, inl, inr, Bool-cases, subst, sym, ==→eq, not_==→ne,
}
use erebus.Zone.{
  MobilityZone, PageState, max_order, mark_active, split_down, highest_active, adopt_stolen_block,
}
use erebus.Zone.Measure.{measure}
use erebus.Zone.Sound.{IsSoundBut, only, IsSound-mark_active}
use erebus.Zone.Conserve.{split_down_lem}
use erebus.Zone.Locked.{
  IsCounted, page_count, block_pages, block_pages-Additive, split_down-total,
  IsSound-add_free_pages,
}

pub highest_active_lem :
    (k : ℕ) (bits : ℕ → Bool) (order c : ℕ)
    → highest_active k bits order ≡ some c
    → (order ≤ c)
      × (c < order + k)
      × (bits c ≡ true)
      × ((o : ℕ) → c < o → o < order + k → bits o ≡ false)
unfolding highest_active
highest_active_lem zero bits order c h = absurd (let e : none ≡ some c = h in cc)
highest_active_lem (suc k) bits order c h = elim (Bool-cases (bits (order + k))) [
  | inl e ↦
      let q : some (order + k) ≡ some c = simp e at h in
      let q' : order + k ≡ c = cc in
      (omega arith, omega arith, subst (λ x. bits x ≡ true) q' e, λ o l m. absurd (omega arith))
  | inr e ↦
      let r = highest_active_lem k bits order c (simp e at h) in
      let r0 = r.0 in
      let r1 = r.1 in
      (
        omega arith,
        omega arith,
        r.2,
        λ o l m. elim (Bool-cases (o == order + k)) [
          | inl f ↦ subst (λ x. bits x ≡ false) (sym (==→eq o (order + k) f)) e
          | inr f ↦ let n = not_==→ne o (order + k) f in r.3 o l (omega arith)
        ],
      )
]

-- What a steal promises of the zone that is robbed: no order from the wanted one up has a block, and
-- the zone is as it was; or the block's pages leave the counter, the block has the order wanted at
-- least, and no larger order has a block.
abbrev pub Steals : MobilityZone → ℕ → MobilityZone × Option (ℕ × ℕ) → Type 0
Steals z min_order (z', none) =
    IsCounted z' × (z' ≡ z) × ((o : ℕ) → min_order ≤ o → o ≤ max_order → z.areas o ≡ [])
Steals z min_order (z', some (pfn, order)) =
    IsCounted z'
    × (page_count z ≡ page_count z' + 2 ^ order)
    × (min_order ≤ order)
    × ((o : ℕ) → order < o → o ≤ max_order → z.areas o ≡ [])
    × ((z'.pages pfn).state ≡ PageState.active)

adopted_lem :
    (t t' x y b r : ℕ)
    → r ≤ b
    → t ≡ x % 2 ^ 64
    → t' ≡ t
    → y + r ≡ x + b
    → add64 t' (b - r) ≡ y % 2 ^ 64
adopted_lem t t' x y b r l h k m = omega arith

pow_mono : (a k : ℕ) → 2 ^ a ≤ 2 ^ (a + k)
pow_mono a zero =
    let e : a + 0 ≡ a = omega arith in subst (λ x. 2 ^ a ≤ 2 ^ x) (sym e) (omega arith)
pow_mono a (suc k) =
    let h = pow_mono a k in
    let e : a + suc k ≡ suc (a + k) = omega arith in
    let d : 2 ^ suc (a + k) ≡ 2 ^ (a + k) + 2 ^ (a + k) = omega arith in
    rw e (let m : 2 ^ a ≤ 2 ^ suc (a + k) = omega (arith, h, d) in m)

-- A thief that takes in a block of another zone keeps its counter exact: of the block, the part
-- that it hands out is not counted.
pub adopt_stolen_block-IsCounted :
    (z : MobilityZone) (pfn block_order requested : ℕ)
    → requested ≤ block_order
    → block_order ≤ max_order
    → IsCounted z
    → IsCounted (adopt_stolen_block z pfn block_order requested)
      × (page_count (adopt_stolen_block z pfn block_order requested) + 2 ^ requested
          ≡ page_count z + 2 ^ block_order)
unfolding adopt_stolen_block mark_active measure
adopt_stolen_block-IsCounted z pfn block_order requested l h c =
    let b : IsSoundBut (only pfn) z = record {
      linked = λ p o u m. c.sound.linked p o refl m;
      bits = c.sound.bits;
      orders = c.sound.orders;
    } in
    let r =
      split_down_lem block_pages (block_order - requested) z pfn requested block_pages-Additive
        (omega arith) b in
    let e : requested + (block_order - requested) ≡ block_order = omega arith in
    let m : page_count (split_down (block_order - requested) z pfn requested) + 2 ^ requested
        ≡ page_count z + 2 ^ block_order =
      subst
        (λ x.
          page_count (split_down (block_order - requested) z pfn requested) + 2 ^ requested
          ≡ page_count z + 2 ^ x)
        e r.1 in
    let le : 2 ^ requested ≤ 2 ^ block_order =
      subst (λ x. 2 ^ requested ≤ 2 ^ x) e (pow_mono requested (block_order - requested)) in
    let s =
      IsSound-mark_active (split_down (block_order - requested) z pfn requested) pfn requested
        (omega arith) r.0 in
    (
      record {
        sound =
            IsSound-add_free_pages
              (mark_active (split_down (block_order - requested) z pfn requested) pfn requested)
              (2 ^ block_order - 2 ^ requested) s;
        counted =
            adopted_lem z.total_free_pages
              (split_down (block_order - requested) z pfn requested).total_free_pages (page_count z)
              (page_count (split_down (block_order - requested) z pfn requested)) (2 ^ block_order)
              (2 ^ requested) le c.counted
              (split_down-total (block_order - requested) z pfn requested) m;
      },
      m,
    )
