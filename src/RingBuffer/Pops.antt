-- ===== src/RingBuffer/Pops.antt =====
-- kernel/include/utils/ring_buffer.hpp: a step of the consumer keeps the invariant.
use erebus.Base.{
  ℕ, ◌+◌, ◌^◌, ◌∙◌, add64, ◌≤◌, ◌<◌, false, ◌==◌, ◌≡◌, ◌≢◌, refl, sym, subst, ap, inl, inr, arith,
  Bool-cases, ltb, ltb→lt, not_ltb→le, ==→eq, not_==→ne,
}
use erebus.Base.Family.{put}
use erebus.RingBuffer.{
  capacity, RingBuffer, slot, Producer, Consumer, waiting, full, emptied, freed, Pop, found,
  move_out, give_back, step_on,
}
use erebus.RingBuffer.Invariant.{Inv, same_slot, carry, sequence-le, same_word}

other_slot : (a b : ℕ) → a ≢ b → (a == b) ≡ false
other_slot a b ne = ground arith

later_ticket : (t h : ℕ) → t ≤ h → slot t ≢ slot h → t + 1 ≤ h
later_ticket t h le ne = elim (Bool-cases (t == h)) [
  | inl e ↦ absurd (ne (ap slot (==→eq _ _ e)))
  | inr e ↦ omega (arith, not_==→ne _ _ e)
]

module _ {r : RingBuffer} {producers : ℕ → Producer} where
  -- A slot that is published for the tail's ticket belongs to a ticket that was handed out.
  found_tail : Inv r producers waiting → r.sequence (slot r.tail) ≡ r.tail + 1 → r.tail < r.head
  found_tail inv e = elim (Bool-cases (ltb r.tail r.head)) [
    | inl b ↦ ltb→lt _ _ b
    | inr b ↦
        let le = not_ltb→le _ _ b in
        let v = inv.vacant r.tail le (omega arith) in absurd (omega arith)
  ]

  moved :
      Inv r producers full → put r.taken r.tail (r.data_at (slot r.tail)) r.tail ≡ r.pushed r.tail
  moved inv =
      let (lt, e) = inv.consumer in
      elim (inv.filled r.tail (omega arith) lt) [
        | inl (q, d) ↦ ground (arith, d)
        | inr q ↦ absurd (omega arith)
      ]

  found-Inv : Inv r producers waiting → r.sequence (slot r.tail) ≡ r.tail + 1 → Inv r producers full
  found-Inv inv e = record {
    behind_head = inv.behind_head;
    room = inv.room;
    vacant = inv.vacant;
    filled = inv.filled;
    sound = inv.sound;
    unique = inv.unique;
    consumer = (found_tail inv e, e);
    in_order = inv.in_order;
  }

  move_out-Inv :
      Inv r producers full
      → Inv (record r { taken = put r.taken r.tail (r.data_at (slot r.tail)) }) producers emptied
  move_out-Inv inv = record {
    behind_head = inv.behind_head;
    room = inv.room;
    vacant = inv.vacant;
    filled = inv.filled;
    sound = inv.sound;
    unique = inv.unique;
    consumer = let (lt, e) = inv.consumer in (lt, e, moved inv);
    in_order = λ t lt. ground (arith, inv.in_order t);
  }

  give_back-Inv :
      Inv r producers emptied
      → Inv
          (record r { sequence = put r.sequence (slot r.tail) (r.tail + capacity) })
          producers
          freed
  give_back-Inv inv =
      let (lt, e, q) = inv.consumer in
      let room = inv.room in
      record {
        behind_head = omega arith;
        room = omega arith;
        vacant = λ p le l. elim (Bool-cases (slot r.tail == slot p)) [
          | inl b ↦ let same = ==→eq _ _ b in rw b (omega arith)
          | inr b ↦ let other = not_==→ne _ _ b in rw b (inv.vacant p le (omega arith))
        ];
        filled = λ p le l.
            let other = other_slot (slot r.tail) (slot p) (λ k.
              let same =
                same_slot r.tail r.tail p (omega arith) (omega arith) (omega arith) (omega arith)
                  k in
              omega arith) in
            rw other (inv.filled p (omega arith) l);
        sound = λ i.
            carry r.tail (r.tail + 1) r
              (record r { sequence = put r.sequence (slot r.tail) (r.tail + capacity) })
              (producers i) (omega arith)
              (λ h l f k.
                let g = f k in
                elim (Bool-cases (slot r.tail == slot h)) [
                  | inl b ↦
                      let same = ==→eq _ _ b in
                      absurd (
                        let v : r.sequence (slot r.tail) ≡ r.sequence (slot h) =
                          ap r.sequence same in
                        omega arith)
                  | inr b ↦ rw b g
                ])
              (λ h t lo l f. elim (Bool-cases (slot r.tail == slot h)) [
                | inl b ↦
                    let same = ==→eq _ _ b in
                    absurd (
                      let v : r.sequence (slot r.tail) ≡ r.sequence (slot h) = ap r.sequence same in
                      omega arith)
                | inr b ↦
                    let apart = not_==→ne _ _ b in
                    rw b (later_ticket r.tail h lo apart, f, refl, refl)
              ])
              (inv.sound i);
        unique = inv.unique;
        consumer = q;
        in_order = inv.in_order;
      }

  step_on-Inv : Inv r producers freed → Inv (record r { tail = r.tail + 1 }) producers waiting
  step_on-Inv inv = record {
    behind_head = inv.behind_head;
    room = inv.room;
    vacant = inv.vacant;
    filled = inv.filled;
    sound = inv.sound;
    unique = inv.unique;
    consumer = tt;
    in_order = λ t lt. elim (Bool-cases (t == r.tail)) [
      | inl e ↦ subst (λ k. r.taken k ≡ r.pushed k) (sym (==→eq _ _ e)) inv.consumer
      | inr e ↦ inv.in_order t (omega (arith, not_==→ne _ _ e))
    ];
  }

pub Pop-Inv :
    {r r' : RingBuffer} {producers : ℕ → Producer} {c c' : Consumer}
    → r.head + capacity < 2 ^ 64
    → Pop r c r' c'
    → Inv r producers c
    → Inv r' producers c'
Pop-Inv {r} few (found e) inv =
    let low = inv.behind_head in
    let b = sequence-le inv r.tail in
    found-Inv inv (
      same_word _ (add64 r.tail 1) (omega arith) (omega arith) e
      ∙ (let s : add64 r.tail 1 ≡ r.tail + 1 = omega arith in s))
Pop-Inv few move_out inv = move_out-Inv inv
Pop-Inv {r} {producers = producers} few give_back inv =
    let low = inv.behind_head in
    let w : r.tail + capacity ≡ add64 r.tail capacity = omega arith in
    subst (λ x. Inv (record r { sequence = put r.sequence (slot r.tail) x }) producers freed) w
      (give_back-Inv inv)
Pop-Inv {r} {producers = producers} few step_on inv =
    let low = inv.behind_head in
    let w : r.tail + 1 ≡ add64 r.tail 1 = omega arith in
    subst (λ x. Inv (record r { tail = x }) producers waiting) w (step_on-Inv inv)
