-- ===== src/Eevdf/Lag.antt =====
-- kernel/src/sched/eevdf.cpp: an entity that joins a queue has the lag that it left its last one
-- with, although joining moves the queue's virtual time.
use native.Mathlib.Nat.{div-add-mod, mod-lt, mod-eq_of_lt}
use erebus.Base.{
  ℕ, ◌+◌, ◌-◌, ◌*◌, ◌/◌, ◌%◌, ◌^◌, ◌≤◌, ◌<◌, ◌≡◌, false, arith, tests, ltb, ◌==◌, Bool-cases, inl,
  inr, add64, ℤ, pos, negsuc, ◌≤ℤ◌, ◌-ℤ◌, clamp_ℤ, s64, not_ltb→le, lt→ltb,
}
use erebus.Eevdf.Entities.{Entity, to_virtual}
use erebus.Eevdf.Eligible.{mul_lt, mul_mono, virtual_time_lem}
use erebus.Eevdf.Sums.{mul-add-le}
use erebus.Eevdf.Account.{IsConsistent, weighted-lt, joins, placed-IsWord, virtual_time-lt}
use erebus.Eevdf.{
  EevdfQueue, account_join, placed, joining_vruntime, joining_lag, magnitude, virtual_time,
  leaving_lag, lag_limit, max_lag_slices,
}

-- Division by its two bounds.
div_bounds : (n d : ℕ) → 0 < d → (n / d * d ≤ n) × (n < n / d * d + d)
div_bounds n d h = omega (arith, div-add-mod n d, mod-lt n h)

lt_of_mul : (a b d : ℕ) → a * d < b * d → a < b
lt_of_mul a b d h = elim (Bool-cases (ltb a b)) [
  | inl e ↦ omega tests
  | inr e ↦ absurd (omega (arith, mul_mono d b a (not_ltb→le a b e)))
]

credit_core :
    (sum total w lag scaled v now : ℕ)
    → scaled * total ≤ lag * (total + w)
    → lag * (total + w) < scaled * total + total
    → (v + scaled) * total ≤ sum
    → sum < (v + scaled) * total + total
    → now * (total + w) ≤ sum + w * v
    → sum + w * v < now * (total + w) + (total + w)
    → (now ≤ v + lag) × (v + lag ≤ now + 1)
credit_core sum total w lag scaled v now a b c d e f =
    let x = lt_of_mul now (v + lag + 1) (total + w) (omega arith) in
    let y = lt_of_mul (v + lag) (now + 2) (total + w) (omega arith) in (omega arith, omega arith)

debt_core :
    (sum total w lag scaled base now : ℕ)
    → scaled * total ≤ lag * (total + w)
    → lag * (total + w) < scaled * total + total
    → base * total ≤ sum
    → sum < base * total + total
    → now * (total + w) ≤ sum + w * (base + scaled)
    → sum + w * (base + scaled) < now * (total + w) + (total + w)
    → (base + scaled ≤ now + lag) × (now + lag ≤ base + scaled + 1)
debt_core sum total w lag scaled base now a b c d e f =
    let x = lt_of_mul (base + scaled) (now + lag + 1) (total + w) (omega arith) in
    let y = lt_of_mul (now + lag) (base + scaled + 2) (total + w) (omega arith) in
    (omega arith, omega arith)

-- What a queue is after the entity with this lag has joined it, in exact arithmetic: an entity in
-- credit stands before virtual time, one in debt behind it.
abbrev pub scaled_lag : EevdfQueue → Entity → ℕ → ℕ
scaled_lag q e lag = lag * (q.total_weight + e.weight) / q.total_weight

joining_lag_lem :
    (q : EevdfQueue) (e : Entity) (lag : ℕ)
    → 0 < q.total_weight
    → q.total_weight + e.weight < 2 ^ 64
    → magnitude e.vlag ≡ lag
    → scaled_lag q e lag < 2 ^ 64
    → joining_lag q e ≡ scaled_lag q e lag
unfolding joining_lag
joining_lag_lem q e lag p h m k =
    let b = mul_lt lag (q.total_weight + e.weight) (2 ^ 64) (2 ^ 64) (omega arith) h in
    let e1 : add64 q.total_weight e.weight ≡ q.total_weight + e.weight = omega arith in
    let e2 : (q.total_weight == 0) ≡ false = ground arith in
    let e3 : lag * (q.total_weight + e.weight) % 2 ^ 128 ≡ lag * (q.total_weight + e.weight) =
      omega arith in
    let e4 : scaled_lag q e lag % 2 ^ 64 ≡ scaled_lag q e lag = mod-eq_of_lt k in
    rw (e2, m, e1, e3, e4)

placed_credit :
    (q : EevdfQueue) (e : Entity) (lag : ℕ)
    → e.vlag ≡ pos lag
    → joining_lag q e ≡ scaled_lag q e lag
    → scaled_lag q e lag ≤ virtual_time q
    → (placed q e).vruntime ≡ virtual_time q - scaled_lag q e lag
unfolding placed joining_vruntime
placed_credit q e lag l j k = ground arith

placed_debt :
    (q : EevdfQueue) (e : Entity) (n : ℕ)
    → e.vlag ≡ negsuc n
    → joining_lag q e ≡ scaled_lag q e (n + 1)
    → virtual_time q + scaled_lag q e (n + 1) < 2 ^ 64
    → (placed q e).vruntime ≡ virtual_time q + scaled_lag q e (n + 1)
unfolding placed joining_vruntime
placed_debt q e n l j k = ground arith

-- The virtual time of the queue that `enqueue` makes of `q` and `e`.
abbrev pub joined : EevdfQueue → Entity → EevdfQueue
joined q e = account_join q (placed q e)

joined-time :
    (q : EevdfQueue) (e : Entity)
    → IsConsistent q
    → 0 < e.weight
    → q.total_weight + e.weight < 2 ^ 64
    → virtual_time (joined q e)
      ≡ (q.weighted_vruntime + e.weight * (placed q e).vruntime) / (q.total_weight + e.weight)
unfolding placed
joined-time q e c p h =
    let w = placed-IsWord q e c.time_fits p in
    let (a, b) = joins q (placed q e) c w h in
    let x = weighted-lt q c in
    let y = mul-add-le e.weight (placed q e).vruntime (2 ^ 64) w.vruntime in
    rw (virtual_time_lem (joined q e) (omega arith) (omega arith), a, b)

-- An entity of positive weight that left its last queue with credit has that credit once it has
-- joined a consistent queue in which somebody takes part: virtual time is ahead of it by its lag, or
-- by one nanosecond less for the rounding. The weights must sum to a 64-bit word, the lag be below
-- 2 ^ 63, and the queue's virtual time be no less than the lag scaled by the weights. A queue in
-- which nobody takes part is left out: its virtual time becomes that of the entity, without credit.
pub credit_kept :
    (q : EevdfQueue) (e : Entity) (lag : ℕ)
    → IsConsistent q
    → 0 < q.total_weight
    → 0 < e.weight
    → q.total_weight + e.weight < 2 ^ 64
    → e.vlag ≡ pos lag
    → lag < 2 ^ 63
    → scaled_lag q e lag ≤ virtual_time q
    → let v = (placed q e).vruntime in
      let now = virtual_time (joined q e) in (now ≤ v + lag) × (v + lag ≤ now + 1)
credit_kept q e lag c p pe h l b k =
    let t = virtual_time_lem q p (let x = weighted-lt q c in omega arith) in
    let m : magnitude e.vlag ≡ lag = rw l (omega arith) in
    let j = joining_lag_lem q e lag p h m (let x = virtual_time-lt q c.time_fits in omega arith) in
    let v : (placed q e).vruntime ≡ virtual_time q - scaled_lag q e lag =
      placed_credit q e lag l j k in
    let w = placed-IsWord q e c.time_fits pe in
    let (a1, a2) = div_bounds (lag * (q.total_weight + e.weight)) q.total_weight p in
    let (b1, b2) = div_bounds q.weighted_vruntime q.total_weight p in
    let (c1, c2) =
      div_bounds (q.weighted_vruntime + e.weight * (placed q e).vruntime)
        (q.total_weight + e.weight) (omega arith) in
    let x : q.weighted_vruntime / q.total_weight ≡ (placed q e).vruntime + scaled_lag q e lag =
      omega arith in
    rw (joined-time q e c pe h) (
      credit_core q.weighted_vruntime q.total_weight e.weight lag (scaled_lag q e lag)
        (placed q e).vruntime _ a1 a2 (rw x at b1) (rw x at b2) c1 c2)

-- An entity of positive weight that left in debt is in debt by as much, but for the rounding, once it
-- has joined a consistent queue in which somebody takes part. The weights must sum to a 64-bit word,
-- the debt be at most 2 ^ 63, and the queue's virtual time with the debt scaled by the weights fit a
-- word. A queue in which nobody takes part is left out: its virtual time becomes that of the entity,
-- without debt.
pub debt_kept :
    (q : EevdfQueue) (e : Entity) (n : ℕ)
    → IsConsistent q
    → 0 < q.total_weight
    → 0 < e.weight
    → q.total_weight + e.weight < 2 ^ 64
    → e.vlag ≡ negsuc n
    → n < 2 ^ 63
    → virtual_time q + scaled_lag q e (n + 1) < 2 ^ 64
    → let v = (placed q e).vruntime in
      let now = virtual_time (joined q e) in (v ≤ now + (n + 1)) × (now + (n + 1) ≤ v + 1)
debt_kept q e n c p pe h l b k =
    let t = virtual_time_lem q p (let x = weighted-lt q c in omega arith) in
    let m : magnitude e.vlag ≡ n + 1 = rw l (omega arith) in
    let j = joining_lag_lem q e (n + 1) p h m (omega arith) in
    let v : (placed q e).vruntime ≡ virtual_time q + scaled_lag q e (n + 1) =
      placed_debt q e n l j k in
    let (a1, a2) = div_bounds ((n + 1) * (q.total_weight + e.weight)) q.total_weight p in
    let (b1, b2) = div_bounds q.weighted_vruntime q.total_weight p in
    let (c1, c2) =
      div_bounds (q.weighted_vruntime + e.weight * (placed q e).vruntime)
        (q.total_weight + e.weight) (omega arith) in
    rw (joined-time q e c pe h) (
      rw v (
        rw t (
          debt_core q.weighted_vruntime q.total_weight e.weight (n + 1) (scaled_lag q e (n + 1))
            (q.weighted_vruntime / q.total_weight) _ a1 a2 b1 b2 (rw (v, t) at c1)
            (rw (v, t) at c2))))

clamp_bounds :
    (v : ℤ) (n : ℕ)
    → let r = clamp_ℤ v (pos 0 -ℤ pos n) (pos n) in (r ≤ℤ pos n) × (pos 0 -ℤ pos n ≤ℤ r)
unfolding clamp_ℤ ◌-ℤ◌
clamp_bounds v n = ground arith

-- No entity leaves with more lag than two of its slices, in credit or in debt, where two slices of
-- virtual time fit a signed word.
pub leaving_lag_bounds :
    (q : EevdfQueue) (e : Entity)
    → to_virtual e (max_lag_slices * e.slice_ns % 2 ^ 64) < 2 ^ 63
    → let limit = to_virtual e (max_lag_slices * e.slice_ns % 2 ^ 64) in
      (leaving_lag q e ≤ℤ pos limit) × (pos 0 -ℤ pos limit ≤ℤ leaving_lag q e)
unfolding leaving_lag to_virtual ◌-ℤ◌
leaving_lag_bounds q e h =
    let w = to_virtual e (max_lag_slices * e.slice_ns % 2 ^ 64) in
    let l : lag_limit e ≡ pos w = unfold lag_limit in rw (lt→ltb w (2 ^ 63) h) in
    rw l (clamp_bounds (s64 (virtual_time q) -ℤ s64 e.vruntime) w)
