-- ===== src/Eevdf/Share.antt =====
-- kernel/include/sched/eevdf.hpp: virtual time runs slower the more an entity weighs.
use native.Mathlib.Nat.{div-add-mod, mod-lt}
use erebus.Base.{ℕ, ◌+◌, ◌*◌, ◌/◌, ◌^◌, ◌≤◌, ◌<◌, ◌≡◌, arith}
use erebus.Eevdf.Entities.{Entity, to_virtual, set_weight}
use erebus.Eevdf.Eligible.{mul_mono}

share_core :
    (ns rate w v : ℕ)
    → rate * w ≤ 2 ^ 42
    → 2 ^ 42 ≤ rate * w + w
    → v * 2 ^ 32 ≤ ns * rate
    → ns * rate ≤ v * 2 ^ 32 + 2 ^ 32
    → (v * w ≤ ns * 1024) × (ns * 2 ^ 42 ≤ (v + 1) * w * 2 ^ 32 + ns * w)
share_core ns rate w v a b c d = (
  omega (arith, mul_mono ns (rate * w) (2 ^ 42) a, mul_mono w (v * 2 ^ 32) (ns * rate) c),
  omega (
    arith,
    mul_mono ns (2 ^ 42) (rate * w + w) b,
    mul_mono w (ns * rate) (v * 2 ^ 32 + 2 ^ 32) d,
  ),
)

to_virtual_lem :
    (e : Entity) (ns : ℕ)
    → ns * 1024 < 2 ^ 64
    → e.rate ≤ 2 ^ 42
    → to_virtual e ns ≡ ns * e.rate / 2 ^ 32
unfolding to_virtual
to_virtual_lem e ns h k = omega (arith, mul_mono ns e.rate (2 ^ 42) k)

rate_bounds : (w : ℕ) → 0 < w → (2 ^ 42 / w * w ≤ 2 ^ 42) × (2 ^ 42 ≤ 2 ^ 42 / w * w + w)
rate_bounds w h = omega (arith, div-add-mod (2 ^ 42) w, mod-lt (2 ^ 42) h)

rate_small : (w : ℕ) → 0 < w → 2 ^ 42 / w ≤ 2 ^ 42
rate_small w h = let r = rate_bounds w h in let k = mul_mono (2 ^ 42 / w) 1 w h in omega arith

set_weight-fields : (e : Entity) (w : ℕ) → 0 < w → (set_weight e w).rate ≡ 2 ^ 42 / w
unfolding set_weight
set_weight-fields e w h = ground arith

-- An entity of weight w ages by ns * 1024 / w when it runs for ns nanoseconds: by no more than
-- that, and by less only through the roundings of the rate and of the product.
pub to_virtual_share :
    (e : Entity) (weight ns : ℕ)
    → 0 < weight
    → weight < 2 ^ 32
    → ns * 1024 < 2 ^ 64
    → let v = to_virtual (set_weight e weight) ns in
      (v * weight ≤ ns * 1024) × (ns * 2 ^ 42 ≤ (v + 1) * weight * 2 ^ 32 + ns * weight)
to_virtual_share e weight ns p h k =
    let r = set_weight-fields e weight p in
    let (a, b) = rate_bounds weight p in
    rw (to_virtual_lem (set_weight e weight) ns k (rw r (rate_small weight p)), r)
      (share_core ns (2 ^ 42 / weight) weight _ a b (omega arith) (omega arith))
