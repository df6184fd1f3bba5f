-- ===== src/Zone/Cached/Paths.antt =====
-- kernel/src/memory/pmm/mobility-zone.cpp: allocation and free through the caches.
use erebus.Base.{
  ℕ, ◌%◌, ◌^◌, ◌≤◌, ◌<◌, Bool, true, false, not, ◌||◌, Option, ltb, ◌==◌, if◌then◌else◌, length,
  arith, ◌≡◌, refl, inl, inr, Bool-cases, ==→eq, leb→le, not_leb→lt, not_==→ne, ◌≢◌,
}
use erebus.Pcp.{PcpList, push_hot, pop_cold, needs_drain}
use erebus.Pcp
use erebus.Pcp.Ring.{push_hot_lem}
use erebus.Zone.{MobilityZone, Daemon, is_free, max_order, can_merge, alloc_pages_locked}
use erebus.Zone.Measure.{measure}
use erebus.Zone.Sound.{IsSound, can_merge-free}
use erebus.Zone.Locked.{
  IsCounted, page_count, alloc_pages_locked-IsCounted, free_page_locked-IsCounted,
}
use erebus.Zone.Cached.{
  batch_refill_pcp, batch_drain_pcp, alloc_refilled, alloc_pages, set_order, free_page, popped,
  pcp_max_order, deferred_capacity,
}
use erebus.Zone.Cached.Keeps.{
  IsTuned, IsCached, tuned, push_hot-sizes, batch_refill_pcp_lem, batch_drain_pcp_lem,
}

popped_hot : (l : PcpList) → IsTuned l → IsTuned (Pcp.pop_hot l).0
unfolding Pcp.pop_hot
popped_hot l t = elim (Bool-cases (l.count == 0)) [
  | inl e ↦ rw (e, Pcp.pop_hot) t
  | inr e ↦
      let n : l.count ≢ 0 = not_==→ne l.count 0 e in
      let h1 = t.ring.head_lt in
      let h2 = t.ring.count_le in
      let h3 = t.ring.tail_eq in
      rw (e, Pcp.pop_hot)
        (record {
          ring = record { head_lt = h1; count_le = omega arith; tail_eq = omega arith };
          batch_pos = t.batch_pos;
          batch_le = t.batch_le;
          high_le = t.high_le;
        })
]

pushed : (l : PcpList) (p : ℕ) → IsTuned l → l.count < 256 → IsTuned (push_hot l p)
pushed l p t h =
    let s = push_hot-sizes l p in tuned l (push_hot l p) t (push_hot_lem l p t.ring h).0 s.0 s.1

refilled_pop :
    (r : MobilityZone × PcpList × Bool × Option Daemon)
    → IsCached r.0 r.1
    → IsCached (alloc_refilled r).0 (alloc_refilled r).1
unfolding alloc_refilled
refilled_pop (z, l, true, d) c = record { zone = c.zone; list = popped_hot l c.list }
refilled_pop (z, l, false, d) c = c

IsCached-if :
    (b : Bool) (x y : MobilityZone × PcpList × Option ℕ)
    → (b ≡ true → IsCached x.0 x.1)
    → (b ≡ false → IsCached y.0 y.1)
    → IsCached (if b then x else y).0 (if b then x else y).1
IsCached-if true x y h k = h refl
IsCached-if false x y h k = k refl

-- An allocation through the caches keeps the zone's counter exact and the list tuned.
pub alloc_pages-IsCached :
    (attached : Bool) (z : MobilityZone) (l : PcpList) (order : ℕ)
    → order ≤ max_order
    → IsCached z l
    → IsCached (alloc_pages attached z l order).0 (alloc_pages attached z l order).1
unfolding alloc_pages
alloc_pages-IsCached attached z l order h c =
    IsCached-if (ltb pcp_max_order order || not attached)
      ((alloc_pages_locked z order).0, l, (alloc_pages_locked z order).1)
      (if l.count == 0
        then alloc_refilled (batch_refill_pcp z l order)
        else popped z (Pcp.pop_hot l))
      (λ e. record { zone = alloc_pages_locked-IsCounted z order h c.zone; list = c.list })
      (λ e.
        IsCached-if (l.count == 0) (alloc_refilled (batch_refill_pcp z l order))
          (popped z (Pcp.pop_hot l))
          (λ f.
            refilled_pop (batch_refill_pcp z l order)
              (batch_refill_pcp_lem z l order h c.zone c.list (==→eq l.count 0 f)).0)
          (λ f. record { zone = c.zone; list = popped_hot l c.list }))

IsSound-set_order :
    (z : MobilityZone) (pfn order : ℕ)
    → order ≤ max_order
    → is_free (z.pages pfn).state ≡ false
    → IsSound z
    → IsSound (set_order z pfn order)
unfolding set_order can_merge
IsSound-set_order z pfn order h a s = record {
  linked = λ p o u m. elim (Bool-cases (pfn == p)) [
    | inl e ↦ absurd (
        let q : is_free (z.pages pfn).state ≡ true =
          simp e at ((can_merge-free (set_order z pfn order) p o m).0) in
        let k : true ≡ false = cc in cc)
    | inr e ↦ s.linked p o u (simp e at m)
  ];
  bits = s.bits;
  orders = λ p. elim (Bool-cases (pfn == p)) [ inl e ↦ rw e h | inr e ↦ rw e (s.orders p) ];
}

set_order-counted :
    (z : MobilityZone) (pfn order : ℕ)
    → z.total_free_pages ≡ page_count z % 2 ^ 64
    → (set_order z pfn order).total_free_pages ≡ page_count (set_order z pfn order) % 2 ^ 64
unfolding set_order measure
set_order-counted z pfn order h = h

-- A block that is freed through the caches, on its own node or another, keeps the zone's counter
-- exact and the list tuned; the list has room whenever a block is pushed.
pub free_page-IsCached :
    (attached local : Bool) (z : MobilityZone) (l : PcpList) (pfn order : ℕ)
    → order ≤ max_order
    → is_free (z.pages pfn).state ≡ false
    → IsCached z l
    → IsCached (free_page attached local z l pfn order).0 (free_page attached local z l pfn order).1
unfolding free_page set_order can_merge measure
free_page-IsCached attached false z l pfn order h a c =
    let s = IsSound-set_order z pfn order h a c.zone.sound in
    let t : IsCounted (set_order z pfn order) = record {
      sound = s;
      counted = set_order-counted z pfn order c.zone.counted;
    } in
    elim (Bool-cases (ltb (length z.deferred_frees) deferred_capacity)) [
      | inl e ↦
          rw (e, free_page)
            (record {
              zone = record {
                sound = record { linked = s.linked; bits = s.bits; orders = s.orders };
                counted = c.zone.counted;
              };
              list = c.list;
            })
      | inr e ↦
          rw (e, free_page)
            (record {
              zone = free_page_locked-IsCounted (set_order z pfn order) pfn order h t;
              list = c.list;
            })
    ]
free_page-IsCached attached true z l pfn order h a c =
    elim (Bool-cases (ltb pcp_max_order order || not attached)) [
      | inl e ↦
          rw (e, free_page)
            (record { zone = free_page_locked-IsCounted z pfn order h c.zone; list = c.list })
      | inr e ↦ elim (Bool-cases (needs_drain l)) [
        | inl f ↦
            let d = batch_drain_pcp_lem z l order h c in
            let b = c.list.batch_pos in
            let g = leb→le l.high l.count f in
            let r = c.list.ring.count_le in
            let hb = c.list.batch_le in
            rw (e, f, free_page)
              (record {
                zone = d.0.zone;
                list = pushed (batch_drain_pcp z l order).1 pfn d.0.list (omega (arith, d.1));
              })
        | inr f ↦
            let g = not_leb→lt l.high l.count f in
            let hh = c.list.high_le in
            rw (e, f, free_page)
              (record { zone = c.zone; list = pushed l pfn c.list (omega arith) })
      ]
    ]
