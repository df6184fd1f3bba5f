-- ===== src/Zone/Cached/Keeps.antt =====
-- kernel/src/memory/pmm/mobility-zone.cpp: the counter and the list under refills and drains.
use erebus.Base.{
  ℕ, zero, suc, ◌+◌, ◌*◌, ◌^◌, ◌≤◌, ◌<◌, min, true, false, not, Option, none, some, ◌==◌, arith,
  tests, ◌≡◌, refl, sym, subst, ◌∙◌, inl, inr, Bool-cases, eq→==, not_==→ne, ◌≢◌, Option-cases,
}
use erebus.Pcp.{PcpList, push_hot, pop_cold}
use erebus.Pcp.Ring.{IsRing, push_hot_lem}
use erebus.Zone.{MobilityZone, max_order, extract_block, buddy_merge, flush_deferred_frees}
use erebus.Zone.Measure.{measure}
use erebus.Zone.Sound.{IsSound}
use erebus.Zone.Conserve.{Extracts, extract_block_lem, buddy_merge_lem}
use erebus.Zone.Locked.{
  IsCounted, page_count, block_pages, block_pages-Additive, counter_sub, added,
  IsCounted-flush_deferred_frees, extract_block-total, buddy_merge-total, IsSound-sub_free_pages,
}
use erebus.Zone.Cached.{refill_from, refilled_pcp, batch_refill_pcp, drain_from, batch_drain_pcp}

-- A ring whose sizes are as `tune` leaves them.
pub record IsTuned (l : PcpList) : Type 0 where
  pub ring : IsRing l
  pub batch_pos : 1 ≤ l.batch
  pub batch_le : l.batch ≤ l.high
  pub high_le : l.high ≤ 256

-- What a refill of a list with room for `k` more promises.
abbrev Refills : ℕ → MobilityZone → PcpList → ℕ → ℕ → MobilityZone × PcpList × ℕ → Type 0
Refills k z l order refilled (z', l', n) =
    IsSound z'
    × (z'.total_free_pages ≡ z.total_free_pages)
    × (page_count z + refilled * 2 ^ order ≡ page_count z' + n * 2 ^ order)
    × IsRing l'
    × (l'.count + refilled ≡ l.count + n)
    × (l'.high ≡ l.high)
    × (l'.batch ≡ l.batch)

push_hot-count : (l : PcpList) (p : ℕ) → l.count < 256 → (push_hot l p).count ≡ suc l.count
unfolding push_hot
push_hot-count l p h = omega arith

pub push_hot-sizes :
    (l : PcpList) (p : ℕ) → ((push_hot l p).high ≡ l.high) × ((push_hot l p).batch ≡ l.batch)
unfolding push_hot
push_hot-sizes l p = (refl, refl)

extracted-none :
    (z : MobilityZone) (order : ℕ) (r : MobilityZone × Option ℕ)
    → r.1 ≡ none
    → Extracts block_pages z order r
    → r.0 ≡ z
extracted-none z order (z', none) e x = x.0
extracted-none z order (z', some p) e x = absurd (let k : none ≡ some p = sym e in cc)

extracted-some :
    (z : MobilityZone) (order p : ℕ) (r : MobilityZone × Option ℕ)
    → r.1 ≡ some p
    → Extracts block_pages z order r
    → IsSound r.0 × (page_count z ≡ page_count r.0 + 2 ^ order)
extracted-some z order p (z', none) e x = absurd (let k : none ≡ some p = e in cc)
extracted-some z order p (z', some q) e x = (x.0, x.1)

refill_from_lem :
    (k : ℕ) (z : MobilityZone) (l : PcpList) (order refilled : ℕ)
    → order ≤ max_order
    → l.count + k ≤ 256
    → IsRing l
    → IsSound z
    → Refills k z l order refilled (refill_from k z l order refilled)
unfolding refill_from
refill_from_lem zero z l order refilled h room r s = (s, refl, refl, r, refl, refl, refl)
refill_from_lem (suc k) z l order refilled h room r s =
    let x = extract_block_lem block_pages z order block_pages-Additive h s in
    let t = extract_block-total z order in
    elim (Option-cases (extract_block z order).1) [
      | inl e ↦
          let q : z ≡ (extract_block z order).0 =
            sym (extracted-none z order (extract_block z order) e x) in
          rw (e, refill_from)
            (
              subst (λ y. IsSound y) q s,
              t,
              subst (λ y. page_count z + refilled * 2 ^ order ≡ page_count y + refilled * 2 ^ order)
                  q refl,
              r,
              refl,
              refl,
              refl,
            )
      | inr (p, e) ↦
          let w = extracted-some z order p (extract_block z order) e x in
          let c = push_hot-count l p (omega arith) in
          let m = push_hot-sizes l p in
          let i =
            refill_from_lem k (extract_block z order).0 (push_hot l p) order (suc refilled) h
              (omega (arith, c)) (push_hot_lem l p r (omega arith)).0 w.0 in
          rw (e, refill_from)
            (
              i.0,
              i.1 ∙ t,
              omega (arith, i.2, w.1),
              i.3,
              omega (arith, i.4, c),
              i.5 ∙ m.0,
              i.6 ∙ m.1,
            )
    ]

-- A list that is tuned, and its zone.
pub record IsCached (z : MobilityZone) (l : PcpList) : Type 0 where
  pub zone : IsCounted z
  pub list : IsTuned l

pub tuned :
    (l l' : PcpList) → IsTuned l → IsRing l' → l'.high ≡ l.high → l'.batch ≡ l.batch → IsTuned l'
tuned l l' t r u v = record {
  ring = r;
  batch_pos = omega (arith, t.batch_pos, v);
  batch_le = omega (arith, t.batch_le, u, v);
  high_le = omega (arith, t.high_le, u);
}

refilled_pcp_lem :
    (z z' : MobilityZone) (l l' : PcpList) (order n : ℕ)
    → IsCounted z
    → IsTuned l
    → l.count ≡ 0
    → Refills l.batch z l order 0 (z', l', n)
    → IsCached (refilled_pcp (z', l', n) order).0 (refilled_pcp (z', l', n) order).1
      × ((refilled_pcp (z', l', n) order).2 ≡ not ((refilled_pcp (z', l', n) order).1.count == 0))
unfolding refilled_pcp measure
refilled_pcp_lem z z' l l' order zero c t e (s, q, m, r, k, u, v) =
    let h = c.counted in
    let none_left : (l'.count == 0) ≡ true = eq→== l'.count 0 (omega arith) in
    (
      record {
        zone = record { sound = s; counted = omega (arith, q, h, m) };
        list = tuned l l' t r u v;
      },
      rw none_left refl,
    )
refilled_pcp_lem z z' l l' order (suc n) c t e (s, q, m, r, k, u, v) =
    let h = c.counted in
    let some_left : (l'.count == 0) ≡ false = ground arith in
    (
      record {
        zone = record {
          sound = IsSound-sub_free_pages z' (suc n * 2 ^ order) s;
          counted =
              counter_sub z.total_free_pages z'.total_free_pages (page_count z) (page_count z')
                (suc n * 2 ^ order) h q (omega (arith, m));
        };
        list = tuned l l' t r u v;
      },
      rw some_left refl,
    )

-- A refill of an empty list succeeds exactly when the list has a block afterwards.
pub batch_refill_pcp_lem :
    (z : MobilityZone) (l : PcpList) (order : ℕ)
    → order ≤ max_order
    → IsCounted z
    → IsTuned l
    → l.count ≡ 0
    → IsCached (batch_refill_pcp z l order).0 (batch_refill_pcp z l order).1
      × ((batch_refill_pcp z l order).2 ≡ not ((batch_refill_pcp z l order).1.count == 0))
unfolding batch_refill_pcp refilled_pcp
batch_refill_pcp_lem z l order h c t e =
    let f = IsCounted-flush_deferred_frees z c in
    let hh = t.high_le in
    let hb = t.batch_le in
    refilled_pcp_lem (flush_deferred_frees z)
      (refill_from l.batch (flush_deferred_frees z) l order 0).0 l
      (refill_from l.batch (flush_deferred_frees z) l order 0).1 order
      (refill_from l.batch (flush_deferred_frees z) l order 0).2 f t e
      (refill_from_lem l.batch (flush_deferred_frees z) l order 0 h (omega arith) t.ring f.sound)

abbrev Drains : ℕ → MobilityZone → PcpList → ℕ → MobilityZone × PcpList → Type 0
Drains k z l order (z', l') =
    IsSound z'
    × (z'.total_free_pages ≡ z.total_free_pages)
    × (page_count z' ≡ page_count z + k * 2 ^ order)
    × IsRing l'
    × (l'.count + k ≡ l.count)
    × (l'.high ≡ l.high)
    × (l'.batch ≡ l.batch)

popped_cold :
    (l : PcpList)
    → IsRing l
    → (l.count == 0) ≡ false
    → ((pop_cold l).1 ≡ some (l.pages l.head))
      × IsRing (pop_cold l).0
      × ((pop_cold l).0.count + 1 ≡ l.count)
      × ((pop_cold l).0.high ≡ l.high)
      × ((pop_cold l).0.batch ≡ l.batch)
unfolding pop_cold
popped_cold l r e =
    let n : l.count ≢ 0 = not_==→ne l.count 0 e in
    let h1 = r.head_lt in
    let h2 = r.count_le in
    let h3 = r.tail_eq in
    rw (e, pop_cold)
      (
        refl,
        record { head_lt = omega arith; count_le = omega arith; tail_eq = omega arith },
        omega arith,
        refl,
        refl,
      )

drain_from_lem :
    (k : ℕ) (z : MobilityZone) (l : PcpList) (order : ℕ)
    → order ≤ max_order
    → k ≤ l.count
    → IsRing l
    → IsSound z
    → Drains k z l order (drain_from k z l order)
unfolding drain_from
drain_from_lem zero z l order h le r s = (s, refl, omega arith, r, omega arith, refl, refl)
drain_from_lem (suc k) z l order h le r s = elim (Bool-cases (l.count == 0)) [
  | inl e ↦ absurd (omega tests)
  | inr e ↦
      let n = popped_cold l r e in
      let m = buddy_merge_lem block_pages z (l.pages l.head) order block_pages-Additive h s in
      let i =
        drain_from_lem k (buddy_merge z (l.pages l.head) order) (pop_cold l).0 order h
          (omega (arith, n.2)) n.1 m.0 in
      rw (n.0, drain_from)
        (
          i.0,
          i.1 ∙ buddy_merge-total z (l.pages l.head) order,
          omega (arith, i.2, m.1),
          i.3,
          omega (arith, i.4, n.2),
          i.5 ∙ n.3,
          i.6 ∙ n.4,
        )
]

pub batch_drain_pcp_lem :
    (z : MobilityZone) (l : PcpList) (order : ℕ)
    → order ≤ max_order
    → IsCached z l
    → IsCached (batch_drain_pcp z l order).0 (batch_drain_pcp z l order).1
      × ((batch_drain_pcp z l order).1.count + min l.batch l.count ≡ l.count)
unfolding batch_drain_pcp
batch_drain_pcp_lem z l order h c =
    let f = IsCounted-flush_deferred_frees z c.zone in
    let d =
      drain_from_lem (min l.batch l.count) (flush_deferred_frees z) l order h (omega arith)
        c.list.ring f.sound in
    (
      record {
        zone =
            added (flush_deferred_frees z)
              (drain_from (min l.batch l.count) (flush_deferred_frees z) l order).0
              (min l.batch l.count * 2 ^ order) f.counted d.1 d.0 d.2;
        list =
            tuned l (drain_from (min l.batch l.count) (flush_deferred_frees z) l order).1 c.list d.3
              d.5 d.6;
      },
      d.4,
    )
