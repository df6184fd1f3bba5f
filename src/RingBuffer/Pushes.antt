-- ===== src/RingBuffer/Pushes.antt =====
-- kernel/include/utils/ring_buffer.hpp: a step of a producer keeps the invariant.
use erebus.Base.{
  ℕ, ◌+◌, ◌^◌, ◌≤◌, ◌<◌, true, false, ◌==◌, ◌≡◌, ◌≢◌, refl, sym, subst, ap, ◌∙◌, inl, inr, none,
  some, arith, Bool-cases, ltb, ltb→lt, not_ltb→le, ==→eq, not_==→ne, ne_==, ==_self, add64,
}
use erebus.Base.Family.{put}
use erebus.RingBuffer.{
  capacity, RingBuffer, slot, Producer, away, trying, ready, writing, publishing, Consumer, waiting,
  full, emptied, freed, Push, start, turn, no_room, behind, exchange, beaten, write, publish,
}
use erebus.RingBuffer.Invariant.{
  ticket, first, IsFilled, IsSound, IsSoundConsumer, Inv, same_slot, carry, sequence-le, same_word,
}

-- The others are as they were, and the mover is as it should be.
others :
    {producers : ℕ → Producer} (P : Producer → Type 0) (i : ℕ) (p : Producer)
    → ((j : ℕ) → i ≢ j → P (producers j))
    → P p
    → (j : ℕ) → P (put producers i p j)
others P i p h hp j = elim (Bool-cases (i == j)) [
  | inl e ↦ rw e hp
  | inr e ↦ rw e (h j (not_==→ne _ _ e))
]

tail-le : (tail : ℕ) (c : Consumer) → tail ≤ first tail c
tail-le tail waiting = omega arith
tail-le tail full = omega arith
tail-le tail emptied = omega arith
tail-le tail freed = omega arith

-- A ticket that is not published was handed out, and its slot waits for it.
owned :
    (lo : ℕ) (r : RingBuffer) (p : Producer) (k : ℕ)
    → ticket p ≡ some k
    → IsSound lo r.head r.sequence r.data_at r.pushed p
    → (lo ≤ k) × (k < r.head) × (r.sequence (slot k) ≡ k)
owned lo r (writing v h) k t (a, b, c, d) =
    let e : h ≡ k = ground arith in
    (omega arith, omega arith, subst (λ x. r.sequence (slot x) ≡ x) e d)
owned lo r (publishing v h) k t (a, b, c, d, w) =
    let e : h ≡ k = ground arith in
    (omega arith, omega arith, subst (λ x. r.sequence (slot x) ≡ x) e d)
owned lo r _ k t s = absurd (ground arith)

exchanged_consumer :
    (r : RingBuffer) (h v : ℕ) (c : Consumer)
    → r.head ≡ h
    → first r.tail c ≤ r.head
    → IsSoundConsumer r c
    → IsSoundConsumer (record r { head = h + 1; pushed = put r.pushed h v }) c
exchanged_consumer r h v waiting at le s = tt
exchanged_consumer r h v full at le (a, b) = (omega arith, b)
exchanged_consumer r h v emptied at le (a, b, d) =
    (omega arith, b, rw (ne_== h r.tail (omega arith)) d)
exchanged_consumer r h v freed at le s = rw (ne_== h r.tail (omega arith)) s

module _ {r : RingBuffer} {producers : ℕ → Producer} {c : Consumer} (inv : Inv r producers c)
    (i : ℕ) where
  -- Tickets of others are not the mover's.
  kept_unique :
      (p : Producer)
      → ((j h : ℕ) → i ≢ j → ticket p ≡ some h → ticket (producers j) ≢ some h)
      → (a b h : ℕ) → ticket (put producers i p a) ≡ some h
      → ticket (put producers i p b) ≡ some h
      → a ≡ b
  kept_unique p apart a b h qa qb = elim (Bool-cases (i == a)) [
    | inl ea ↦ elim (Bool-cases (i == b)) [
      | inl eb ↦ omega (arith, ==→eq _ _ ea, ==→eq _ _ eb)
      | inr eb ↦ absurd (
          apart b h (not_==→ne _ _ eb)
            (let k : ticket p ≡ some h = rw (sym (putting p a ea)) qa in k)
            (let k : ticket (producers b) ≡ some h = rw (sym (passing p b eb)) qb in k))
    ]
    | inr ea ↦ elim (Bool-cases (i == b)) [
      | inl eb ↦ absurd (
          apart a h (not_==→ne _ _ ea)
            (let k : ticket p ≡ some h = rw (sym (putting p b eb)) qb in k)
            (let k : ticket (producers a) ≡ some h = rw (sym (passing p a ea)) qa in k))
      | inr eb ↦
          inv.unique a b h
            (let k : ticket (producers a) ≡ some h = rw (sym (passing p a ea)) qa in k)
            (let k : ticket (producers b) ≡ some h = rw (sym (passing p b eb)) qb in k)
    ]
  ]
    where
      putting : (p : Producer) (a : ℕ) → (i == a) ≡ true → put producers i p a ≡ p
      putting p a e = rw e refl

      passing : (p : Producer) (a : ℕ) → (i == a) ≡ false → put producers i p a ≡ producers a
      passing p a e = rw e refl

  -- A producer that changes nothing and has no ticket.
  passing-Inv :
      (p : Producer)
      → ticket p ≡ none
      → IsSound (first r.tail c) r.head r.sequence r.data_at r.pushed p
      → Inv r (put producers i p) c
  passing-Inv p e s = record {
    behind_head = inv.behind_head;
    room = inv.room;
    vacant = inv.vacant;
    filled = inv.filled;
    sound =
        others (IsSound (first r.tail c) r.head r.sequence r.data_at r.pushed) i p
          (λ j ne. inv.sound j) s;
    unique = kept_unique p (λ j h ne q. absurd (cc));
    consumer = inv.consumer;
    in_order = inv.in_order;
  }

  -- A slot that is free for the head's ticket is not the one of the first ticket that is left.
  has_room : r.sequence (slot r.head) ≡ r.head → r.head < first r.tail c + capacity
  has_room e = elim (Bool-cases (ltb r.head (first r.tail c + capacity))) [
    | inl b ↦ ltb→lt _ _ b
    | inr b ↦
        let le = not_ltb→le _ _ b in
        let at : r.head ≡ first r.tail c + capacity = omega (arith, inv.room) in
        let same : slot r.head ≡ slot (first r.tail c) = omega arith in
        let v : r.sequence (slot r.head) ≡ r.sequence (slot (first r.tail c)) =
          ap r.sequence same in
        elim (inv.filled (first r.tail c) (omega arith) (omega arith)) [
          | inl (q, d) ↦ absurd (omega arith)
          | inr q ↦ absurd (omega arith)
        ]
  ]

  exchange-Inv :
      (v h : ℕ)
      → producers i ≡ ready v h
      → r.head ≡ h
      → Inv (record r { head = h + 1; pushed = put r.pushed h v }) (put producers i (writing v h)) c
  exchange-Inv v h e at =
      let old =
        subst (IsSound (first r.tail c) r.head r.sequence r.data_at r.pushed) e (inv.sound i) in
      let turn_here : r.sequence (slot h) ≡ h = old.1 (sym at) in
      let turn_head : r.sequence (slot r.head) ≡ r.head =
        subst (λ k. r.sequence (slot k) ≡ k) (sym at) turn_here in
      let free = has_room turn_head in
      let low = inv.behind_head in
      let r' : RingBuffer = record r { head = h + 1; pushed = put r.pushed h v } in
      record {
        behind_head = omega arith;
        room = omega arith;
        vacant = λ p le l. inv.vacant p (omega arith) (omega arith);
        filled = λ p le l. elim (Bool-cases (h == p)) [
          | inl b ↦ inr (subst (λ k. r.sequence (slot k) ≡ k) (==→eq _ _ b) turn_here)
          | inr b ↦ rw b (inv.filled p (omega arith) (omega (arith, not_==→ne _ _ b)))
        ];
        sound =
            others (IsSound (first r.tail c) r'.head r'.sequence r'.data_at r'.pushed) i
              (writing v h)
              (λ j ne.
                carry (first r.tail c) (first r.tail c) r r' (producers j) (omega arith)
                  (λ k l f q. absurd (omega arith))
                  (λ k t l lt f. (omega arith, f, rw (ne_== h k (omega arith)) refl, refl))
                  (inv.sound j))
              (omega arith, omega arith, rw (==_self h) refl, turn_here);
        unique = kept_unique (writing v h) (λ j k ne q t.
            let (a, b, d) = owned (first r.tail c) r (producers j) k t (inv.sound j) in
            ground arith);
        consumer = exchanged_consumer r h v c at low inv.consumer;
        in_order = λ t lt. rw (ne_== h t (omega (arith, tail-le r.tail c))) (inv.in_order t lt);
      }

  -- Slots of two tickets in the window are two slots.
  two_slots :
      (a b : ℕ)
      → first r.tail c ≤ a
      → a < first r.tail c + capacity
      → first r.tail c ≤ b
      → b < first r.tail c + capacity
      → a ≢ b
      → (slot a == slot b) ≡ false
  two_slots a b la ha lb hb ne =
      ne_== (slot a) (slot b) (λ k. ne (same_slot (first r.tail c) a b la ha lb hb k))

  not_mine :
      (h j k : ℕ) → ticket (producers i) ≡ some h → i ≢ j → ticket (producers j) ≡ some k → h ≢ k
  not_mine h j k mine ne q e = ne (inv.unique i j k (let x = mine in cc) q)

  write-Inv :
      (v h : ℕ)
      → producers i ≡ writing v h
      → Inv (record r { data_at = put r.data_at (slot h) v }) (put producers i (publishing v h)) c
  write-Inv v h e =
      let (a, b, d, q) =
        subst (IsSound (first r.tail c) r.head r.sequence r.data_at r.pushed) e (inv.sound i) in
      let mine : ticket (producers i) ≡ some h = ap ticket e in
      let r' : RingBuffer = record r { data_at = put r.data_at (slot h) v } in
      let room = inv.room in
      record {
        behind_head = inv.behind_head;
        room = room;
        vacant = λ p le l. inv.vacant p le l;
        filled = λ p le l. elim (Bool-cases (h == p)) [
          | inl f ↦ inr (subst (λ k. r.sequence (slot k) ≡ k) (==→eq _ _ f) q)
          | inr f ↦
              rw (two_slots h p a (omega arith) le (omega arith) (not_==→ne _ _ f))
                (inv.filled p le l)
        ];
        sound =
            others (IsSound (first r.tail c) r'.head r'.sequence r'.data_at r'.pushed) i
              (publishing v h)
              (λ j ne.
                carry (first r.tail c) (first r.tail c) r r' (producers j) (omega arith)
                  (λ k l f g. f g)
                  (λ k t l lt f. (
                    l,
                    f,
                    refl,
                    rw (two_slots h k a (omega arith) l (omega arith) (not_mine h j k mine ne t))
                        refl,
                  ))
                  (inv.sound j))
              (a, b, d, q, rw (==_self (slot h)) refl);
        unique =
            kept_unique (publishing v h) (λ j k ne t u. not_mine h j k mine ne u (ground arith));
        consumer = written_consumer c inv.consumer;
        in_order = inv.in_order;
      }
    where
      written_consumer :
          (c : Consumer)
          → IsSoundConsumer r c
          → IsSoundConsumer (record r { data_at = put r.data_at (slot h) v }) c
      written_consumer waiting x = x
      written_consumer full x = x
      written_consumer emptied x = x
      written_consumer freed x = x

  publish-Inv :
      (v h : ℕ)
      → producers i ≡ publishing v h
      → Inv (record r { sequence = put r.sequence (slot h) (h + 1) }) (put producers i away) c
  publish-Inv v h e =
      let (a, b, d, q, w) =
        subst (IsSound (first r.tail c) r.head r.sequence r.data_at r.pushed) e (inv.sound i) in
      let mine : ticket (producers i) ≡ some h = ap ticket e in
      let r' : RingBuffer = record r { sequence = put r.sequence (slot h) (h + 1) } in
      let room = inv.room in
      record {
        behind_head = inv.behind_head;
        room = room;
        vacant = λ p le l.
            rw (two_slots h p a (omega arith) (omega arith) l (omega arith)) (inv.vacant p le l);
        filled = λ p le l. elim (Bool-cases (h == p)) [
          | inl f ↦ subst (IsFilled r') (==→eq _ _ f) (inl (rw (==_self (slot h)) refl, w ∙ sym d))
          | inr f ↦
              rw (two_slots h p a (omega arith) le (omega arith) (not_==→ne _ _ f))
                (inv.filled p le l)
        ];
        sound =
            others (IsSound (first r.tail c) r'.head r'.sequence r'.data_at r'.pushed) i away
              (λ j ne.
                carry (first r.tail c) (first r.tail c) r r' (producers j) (omega arith)
                  (λ k l f g.
                    let at = f g in
                    elim (Bool-cases (slot h == slot k)) [
                      | inl s ↦ absurd (
                          let x : r.sequence (slot h) ≡ r.sequence (slot k) =
                            ap r.sequence (==→eq _ _ s) in
                          omega arith)
                      | inr s ↦ rw s at
                    ])
                  (λ k t l lt f. (
                    l,
                    rw (two_slots h k a (omega arith) l (omega arith) (not_mine h j k mine ne t)) f,
                    refl,
                    refl,
                  ))
                  (inv.sound j))
              tt;
        unique = kept_unique away (λ j k ne t u. absurd (cc));
        consumer = published_consumer c inv.consumer q;
        in_order = inv.in_order;
      }
    where
      -- The slot that the consumer has found full is not one that is being filled.
      tail_kept :
          r.sequence (slot r.tail) ≡ r.tail + 1
          → r.sequence (slot h) ≡ h
          → put r.sequence (slot h) (h + 1) (slot r.tail) ≡ r.tail + 1
      tail_kept f q = elim (Bool-cases (slot h == slot r.tail)) [
        | inl s ↦
            let same = ==→eq _ _ s in
            absurd (
              let x : r.sequence (slot h) ≡ r.sequence (slot r.tail) = ap r.sequence same in
              omega arith)
        | inr s ↦ rw s f
      ]

      published_consumer :
          (c : Consumer)
          → IsSoundConsumer r c
          → r.sequence (slot h) ≡ h
          → IsSoundConsumer (record r { sequence = put r.sequence (slot h) (h + 1) }) c
      published_consumer waiting x q = x
      published_consumer full (x, y) q = (x, tail_kept y q)
      published_consumer emptied (x, y, z) q = (x, tail_kept y q, z)
      published_consumer freed x q = x

pub Push-Inv :
    {r r' : RingBuffer} {producers : ℕ → Producer} {c : Consumer} {p p' : Producer} (i : ℕ)
    → producers i ≡ p
    → r.head + capacity < 2 ^ 64
    → Push r p r' p'
    → Inv r producers c
    → Inv r' (put producers i p') c
Push-Inv {r} i e few (start v) inv = passing-Inv inv i (trying v r.head) refl (omega arith)
Push-Inv {r} i e few (behind {v} l l') inv = passing-Inv inv i (trying v r.head) refl (omega arith)
Push-Inv {r} i e few (beaten {v}) inv = passing-Inv inv i (trying v r.head) refl (omega arith)
Push-Inv i e few (no_room l) inv = passing-Inv inv i away refl tt
Push-Inv {r} {c = c} i e few (turn {v} {h} q) inv =
    let le =
      subst (IsSound (first r.tail c) r.head r.sequence r.data_at r.pushed) e (inv.sound i) in
    passing-Inv inv i (ready v h) refl
      (le, λ f. same_word _ h (let b = sequence-le inv h in omega arith) (omega arith) q)
Push-Inv {r} {producers = producers} {c = c} i e few (exchange {v} {h} at) inv =
    let w : h + 1 ≡ add64 h 1 = omega arith in
    subst
      (λ x.
        Inv (record r { head = x; pushed = put r.pushed h v }) (put producers i (writing v h)) c)
      w (exchange-Inv inv i v h e at)
Push-Inv i e few (write {v} {h}) inv = write-Inv inv i v h e
Push-Inv {r} {producers = producers} {c = c} i e few (publish {v} {h}) inv =
    let (l, lt, a, b, d) =
      subst (IsSound (first r.tail c) r.head r.sequence r.data_at r.pushed) e (inv.sound i) in
    let w : h + 1 ≡ add64 h 1 = omega arith in
    subst (λ x. Inv (record r { sequence = put r.sequence (slot h) x }) (put producers i away) c) w
      (publish-Inv inv i v h e)
