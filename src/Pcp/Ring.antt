-- ===== src/Pcp/Ring.antt =====
-- The ring holds a list: what it pushes and pops is that list, oldest first.
use erebus.Base.{
  ℕ, zero, suc, ◌+◌, ◌-◌, ◌%◌, ◌^◌, ◌≤◌, ◌<◌, true, List, [], ◌∷◌, ◌++◌, Option, none, some, ◌==◌,
  arith, tests, ◌≡◌, refl, sym, ap, inl, inr, Bool-cases, not_==→ne, ==→eq, eq→==, ◌≢◌, subst, ◌⊎◌,
  ltb, ltb→lt, not_ltb→le,
}
use erebus.Pcp.{PcpList, put, push_hot, pop_hot, pop_cold}

-- `n` slots from `i` on.
abbrev pub slots : (ℕ → ℕ) → ℕ → ℕ → List ℕ
slots pages i zero = []
slots pages i (suc n) = pages (i % 256) ∷ slots pages (suc i) n

abbrev pub items : PcpList → List ℕ
items l = slots l.pages l.head l.count

pub record IsRing (l : PcpList) : Type 0 where
  pub head_lt : l.head < 256
  pub count_le : l.count ≤ 256
  pub tail_eq : l.tail ≡ (l.head + l.count) % 256

slots-put :
    (pages : ℕ → ℕ) (i n t p : ℕ)
    → t ≡ (i + n) % 256
    → n < 256
    → (k : ℕ) → k ≤ n
    → slots (put pages t p) (i + (n - k)) k ≡ slots pages (i + (n - k)) k
slots-put pages i n t p e h zero l = refl
slots-put pages i n t p e h (suc k) l = elim (Bool-cases (t == (i + (n - suc k)) % 256)) [
  | inl f ↦ absurd (omega tests)
  | inr f ↦
      let s : suc (i + (n - suc k)) ≡ i + (n - k) = omega arith in
      rw (f, s)
        (ap (λ xs. pages ((i + (n - suc k)) % 256) ∷ xs)
          (slots-put pages i n t p e h k (omega arith)))
]

slots-last :
    (pages : ℕ → ℕ) (i n : ℕ)
    → slots pages i (suc n) ≡ slots pages i n ++ (pages ((i + n) % 256) ∷ [])
slots-last pages i zero = let e : i + 0 ≡ i = omega arith in rw e refl
slots-last pages i (suc n) =
    let e : i + suc n ≡ suc i + n = omega arith in
    rw e (ap (λ xs. pages (i % 256) ∷ xs) (slots-last pages (suc i) n))

slots-wrap : (pages : ℕ → ℕ) (i j n : ℕ) → i % 256 ≡ j % 256 → slots pages i n ≡ slots pages j n
slots-wrap pages i j zero e = refl
slots-wrap pages i j (suc n) e =
    let k = slots-wrap pages (suc i) (suc j) n (omega arith) in rw (e, k) refl

-- Pushing onto a ring that has room appends to its list, and it is a ring again.
pub push_hot_lem :
    (l : PcpList) (p : ℕ)
    → IsRing l
    → l.count < 256
    → IsRing (push_hot l p) × (items (push_hot l p) ≡ items l ++ (p ∷ []))
unfolding push_hot
push_hot_lem l p r h =
    let h1 = r.head_lt in
    let h2 = r.count_le in
    let h3 = r.tail_eq in
    let c : (l.count + 1) % 2 ^ 16 ≡ suc l.count = omega arith in
    let k : slots (put l.pages l.tail p) (l.head + (l.count - l.count)) l.count
        ≡ slots l.pages (l.head + (l.count - l.count)) l.count =
      slots-put l.pages l.head l.count l.tail p h3 h l.count (omega arith) in
    let z : l.head + (l.count - l.count) ≡ l.head = omega arith in
    let k' : slots (put l.pages l.tail p) l.head l.count ≡ slots l.pages l.head l.count =
      subst (λ i. slots (put l.pages l.tail p) i l.count ≡ slots l.pages i l.count) z k in
    let w : (put l.pages l.tail p) ((l.head + l.count) % 256) ≡ p =
      (let e : (l.tail == (l.head + l.count) % 256) ≡ true = eq→== _ _ h3 in rw e refl) in
    (
      record { head_lt = h1; count_le = omega arith; tail_eq = omega arith },
      rw c (let s = slots-last (put l.pages l.tail p) l.head l.count in rw (s, k', w) refl),
    )

-- What a pop at the tail promises, and a pop at the head.
abbrev pub PopsLast : PcpList → PcpList × Option ℕ → Type 0
PopsLast l (l', none) = (l' ≡ l) × (items l ≡ [])
PopsLast l (l', some p) = IsRing l' × (items l ≡ items l' ++ (p ∷ []))

abbrev pub PopsFirst : PcpList → PcpList × Option ℕ → Type 0
PopsFirst l (l', none) = (l' ≡ l) × (items l ≡ [])
PopsFirst l (l', some p) = IsRing l' × (items l ≡ p ∷ items l')

none_left : (l : PcpList) → (l.count == 0) ≡ true → items l ≡ []
none_left l e = let k : l.count ≡ 0 = ==→eq l.count 0 e in rw k refl

-- A pop from the tail takes the block that was pushed last, and fails on an empty ring only.
pub pop_hot_lem : (l : PcpList) → IsRing l → PopsLast l (pop_hot l)
unfolding pop_hot
pop_hot_lem l r = elim (Bool-cases (l.count == 0)) [
  | inl e ↦ rw (e, pop_hot) (refl, none_left l e)
  | inr e ↦
      let n : l.count ≢ 0 = not_==→ne l.count 0 e in
      let h1 = r.head_lt in
      let h2 = r.count_le in
      let h3 = r.tail_eq in
      let c : l.count ≡ suc (l.count - 1) = omega arith in
      let t : (l.tail + 255) % 256 ≡ (l.head + (l.count - 1)) % 256 = omega arith in
      rw (e, pop_hot)
        (
          record { head_lt = h1; count_le = omega arith; tail_eq = t },
          rw t (
              subst
                (λ m.
                  slots l.pages l.head m
                  ≡ slots l.pages l.head (l.count - 1)
                    ++ (l.pages ((l.head + (l.count - 1)) % 256) ∷ []))
                (sym c) (slots-last l.pages l.head (l.count - 1))),
        )
]

-- A pop from the head takes the oldest block, and fails on an empty ring only.
pub pop_cold_lem : (l : PcpList) → IsRing l → PopsFirst l (pop_cold l)
unfolding pop_cold
pop_cold_lem l r = elim (Bool-cases (l.count == 0)) [
  | inl e ↦ rw (e, pop_cold) (refl, none_left l e)
  | inr e ↦
      let n : l.count ≢ 0 = not_==→ne l.count 0 e in
      let h1 = r.head_lt in
      let h2 = r.count_le in
      let h3 = r.tail_eq in
      let c : l.count ≡ suc (l.count - 1) = omega arith in
      let i : l.head % 256 ≡ l.head = omega arith in
      let k : slots l.pages (suc l.head) (l.count - 1)
          ≡ slots l.pages ((l.head + 1) % 256) (l.count - 1) =
        slots-wrap l.pages (suc l.head) ((l.head + 1) % 256) (l.count - 1) (omega arith) in
      rw (e, pop_cold)
        (
          record { head_lt = omega arith; count_le = omega arith; tail_eq = omega arith },
          subst
              (λ m.
                slots l.pages l.head m
                ≡ l.pages l.head ∷ slots l.pages ((l.head + 1) % 256) (l.count - 1))
              (sym c) (rw (i, k) refl),
        )
]

abbrev pub Pushed : PcpList → ℕ → PcpList → Type 0
Pushed l page l' = IsRing l' × (items l' ≡ items l ++ (page ∷ []))

-- On every ring, up to a full one: a pop from the tail takes the block that was pushed last, one from
-- the head the oldest; both fail on an empty ring only, and what they leave is a ring of the other
-- blocks in their order. A push on a ring that is not full leaves a ring with the block behind the
-- others.
pub ring_lem :
    (l : PcpList) (page : ℕ)
    → IsRing l
    → ((l.count ≡ 256) ⊎ Pushed l page (push_hot l page))
      × PopsLast l (pop_hot l)
      × PopsFirst l (pop_cold l)
ring_lem l page r = (
  elim (Bool-cases (ltb l.count 256)) [
    | inl e ↦ inr (push_hot_lem l page r (ltb→lt l.count 256 e))
    | inr e ↦ let h = r.count_le in let g = not_ltb→le l.count 256 e in inl (omega arith)
  ],
  pop_hot_lem l r,
  pop_cold_lem l r,
)
