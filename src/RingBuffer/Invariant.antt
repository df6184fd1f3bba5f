-- ===== src/RingBuffer/Invariant.antt =====
-- kernel/include/utils/ring_buffer.hpp: whose turn each slot is.
use erebus.Base.{
  ℕ, ◌+◌, ◌-◌, ◌%◌, ◌^◌, ◌≤◌, ◌<◌, ◌≡◌, ◌∙◌, refl, ◌⊎◌, inl, inr, Option, none, some, arith, subst,
  Bool-cases, ltb, ltb→lt, not_ltb→le, sub64,
}
use erebus.RingBuffer.{
  capacity, RingBuffer, slot, Producer, away, trying, ready, writing, publishing, Consumer, waiting,
  full, emptied, freed,
}

-- The ticket that a producer has and has not published.
abbrev pub ticket : Producer → Option ℕ
ticket (writing v h) = some h
ticket (publishing v h) = some h
ticket _ = none

-- The first ticket whose slot is not given back.
abbrev pub first : ℕ → Consumer → ℕ
first tail freed = tail + 1
first tail _ = tail

abbrev pub IsFilled : RingBuffer → ℕ → Type 0
IsFilled r p =
    ((r.sequence (slot p) ≡ p + 1) × (r.data_at (slot p) ≡ r.pushed p)) ⊎ (r.sequence (slot p) ≡ p)

-- What holds of a producer at its place, from the first ticket that is not given back on.
abbrev pub IsSound : ℕ → ℕ → (ℕ → ℕ) → (ℕ → ℕ) → (ℕ → ℕ) → Producer → Type 0
IsSound lo head sequence data_at pushed away = Unit
IsSound lo head sequence data_at pushed (trying v h) = h ≤ head
IsSound lo head sequence data_at pushed (ready v h) =
    (h ≤ head) × (h ≡ head → sequence (slot h) ≡ h)
IsSound lo head sequence data_at pushed (writing v h) =
    (lo ≤ h) × (h < head) × (pushed h ≡ v) × (sequence (slot h) ≡ h)
IsSound lo head sequence data_at pushed (publishing v h) =
    (lo ≤ h) × (h < head) × (pushed h ≡ v) × (sequence (slot h) ≡ h) × (data_at (slot h) ≡ v)

-- A producer is not disturbed by a step that leaves the slot of its ticket, or the free one, alone.
pub carry :
    (lo lo' : ℕ) (r r' : RingBuffer) (p : Producer)
    → r.head ≤ r'.head
    → ((h : ℕ)
        → h ≤ r.head
        → (h ≡ r.head → r.sequence (slot h) ≡ h)
        → h ≡ r'.head
        → r'.sequence (slot h) ≡ h)
    → ((h : ℕ)
        → ticket p ≡ some h
        → lo ≤ h
        → h < r.head
        → r.sequence (slot h) ≡ h
        → (lo' ≤ h)
          × (r'.sequence (slot h) ≡ h)
          × (r'.pushed h ≡ r.pushed h)
          × (r'.data_at (slot h) ≡ r.data_at (slot h)))
    → IsSound lo r.head r.sequence r.data_at r.pushed p
    → IsSound lo' r'.head r'.sequence r'.data_at r'.pushed p
carry lo lo' r r' away up free own s = tt
carry lo lo' r r' (trying v h) up free own s = omega arith
carry lo lo' r r' (ready v h) up free own (le, e) = (omega arith, free h le e)
carry lo lo' r r' (writing v h) up free own (l, lt, e, q) =
    let (a, b, c, d) = own h refl l lt q in (a, omega arith, c ∙ e, b)
carry lo lo' r r' (publishing v h) up free own (l, lt, e, q, w) =
    let (a, b, c, d) = own h refl l lt q in (a, omega arith, c ∙ e, b, d ∙ w)

abbrev pub IsSoundConsumer : RingBuffer → Consumer → Type 0
IsSoundConsumer r waiting = Unit
IsSoundConsumer r full = (r.tail < r.head) × (r.sequence (slot r.tail) ≡ r.tail + 1)
IsSoundConsumer r emptied =
    (r.tail < r.head) × (r.sequence (slot r.tail) ≡ r.tail + 1) × (r.taken r.tail ≡ r.pushed r.tail)
IsSoundConsumer r freed = r.taken r.tail ≡ r.pushed r.tail

pub record Inv (r : RingBuffer) (producers : ℕ → Producer) (c : Consumer) : Type 0 where
  pub behind_head : first r.tail c ≤ r.head
  pub room : r.head ≤ first r.tail c + capacity
  pub vacant : (p : ℕ) → r.head ≤ p → p < first r.tail c + capacity → r.sequence (slot p) ≡ p
  pub filled : (p : ℕ) → first r.tail c ≤ p → p < r.head → IsFilled r p
  pub sound : (i : ℕ) → IsSound (first r.tail c) r.head r.sequence r.data_at r.pushed (producers i)
  pub unique : (i j h : ℕ) → ticket (producers i) ≡ some h → ticket (producers j) ≡ some h → i ≡ j
  pub consumer : IsSoundConsumer r c
  pub in_order : (t : ℕ) → t < r.tail → r.taken t ≡ r.pushed t

pub same_slot :
    (lo a b : ℕ) → lo ≤ a → a < lo + 512 → lo ≤ b → b < lo + 512 → a % 512 ≡ b % 512 → a ≡ b
same_slot lo a b la ha lb hb e = omega arith

module _ {r : RingBuffer} {producers : ℕ → Producer} {c : Consumer} where
  -- The sequence of a slot belongs to a ticket between the first that is not given back and a round
  -- later.
  pub sequence-le : Inv r producers c → (h : ℕ) → r.sequence (slot h) ≤ r.head + capacity
  sequence-le inv h =
      let lo = first r.tail c in
      let p = lo + (h % 512 + 512 - lo % 512) % 512 in
      let same : p % 512 ≡ h % 512 = omega arith in
      let low = inv.behind_head in
      let at : r.sequence (slot p) ≤ p + 1 = elim (Bool-cases (ltb p r.head)) [
        | inl e ↦ elim (inv.filled p (omega arith) (ltb→lt p r.head e)) [
          | inl (q, d) ↦ omega arith
          | inr q ↦ omega arith
        ]
        | inr e ↦
            let ge = not_ltb→le p r.head e in let q = inv.vacant p ge (omega arith) in omega arith
      ] in
      let at' : r.sequence (h % 512) ≤ p + 1 = subst (λ x. r.sequence x ≤ p + 1) same at in
      omega arith

-- Two words whose difference is zero.
pub same_word : (a b : ℕ) → a < 2 ^ 64 → b < 2 ^ 64 → sub64 a b ≡ 0 → a ≡ b
same_word a b la lb e = omega arith
