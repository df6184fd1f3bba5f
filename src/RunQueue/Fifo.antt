-- ===== src/RunQueue/Fifo.antt =====
-- kernel/src/sched/runqueue.cpp: a real-time FIFO is a list whose last thread is the tail.
use erebus.Base.{
  ℕ, Bool, true, false, Option, none, some, List, [], ◌∷◌, ◌++◌, if◌then◌else◌, ◌≡◌, refl, sym,
  arith, ◌||◌, ◌==◌, eq→==, ==→eq, subst, ap, ◌∙◌, inl, inr, Bool-cases,
}
use erebus.RunQueue.{RtFifo, insert_after, push_fifo, pop_fifo}

-- The last item of a list, or what stands before the list.
abbrev pub last_or : Option ℕ → List ℕ → Option ℕ
last_or d [] = d
last_or d (x ∷ xs) = last_or (some x) xs

abbrev pub HasTail : RtFifo → Type 0
HasTail f = f.tail ≡ last_or none f.list

-- The threads of the list, each of which is on it once.
abbrev pub member : ℕ → List ℕ → Bool
member t [] = false
member t (x ∷ xs) = x == t || member t xs

abbrev pub IsDistinct : List ℕ → Type 0
IsDistinct [] = Unit
IsDistinct (x ∷ xs) = (member x xs ≡ false) × IsDistinct xs

abbrev pub IsFifo : RtFifo → Type 0
IsFifo f = HasTail f × IsDistinct f.list

last_or-append : (d : Option ℕ) (xs : List ℕ) (x : ℕ) → last_or d (xs ++ (x ∷ [])) ≡ some x
last_or-append d [] x = refl
last_or-append d (y ∷ ys) x = last_or-append (some y) ys x

last_some : (x : ℕ) (xs : List ℕ) → (t : ℕ) × (last_or (some x) xs ≡ some t)
last_some x [] = (x, refl)
last_some x (y ∷ ys) = last_some y ys

last_member : (x t : ℕ) (xs : List ℕ) → last_or (some x) xs ≡ some t → member t (x ∷ xs) ≡ true
last_member x t [] h = let e : x ≡ t = cc in rw (eq→== x t e) refl
last_member x t (y ∷ ys) h = ground (arith, last_member y t ys h)

member-append : (t id : ℕ) (xs : List ℕ) → member t (xs ++ (id ∷ [])) ≡ member t xs || (id == t)
member-append t id [] = ground arith
member-append t id (x ∷ xs) = ground (arith, member-append t id xs)

append-IsDistinct :
    (id : ℕ) (xs : List ℕ) → IsDistinct xs → member id xs ≡ false → IsDistinct (xs ++ (id ∷ []))
append-IsDistinct id [] d n = (refl, tt)
append-IsDistinct id (x ∷ xs) (e, d) n =
    (rw (member-append x id xs) (ground arith), append-IsDistinct id xs d (ground arith))

-- To insert after the last of distinct threads is to append.
insert_after_last :
    (t id x : ℕ) (xs : List ℕ)
    → last_or (some x) xs ≡ some t
    → IsDistinct (x ∷ xs)
    → insert_after t id (x ∷ xs) ≡ (x ∷ xs) ++ (id ∷ [])
unfolding insert_after
insert_after_last t id x [] h d = let e : x ≡ t = cc in rw (eq→== x t e) refl
insert_after_last t id x (y ∷ ys) h (e, d) =
    let k = last_member y t ys h in
    elim (Bool-cases (x == t)) [
      | inl f ↦ absurd (
          let n = subst (λ z. member z (y ∷ ys) ≡ false) (==→eq x t f) e in
          let c : true ≡ false = sym k ∙ n in cc)
      | inr f ↦
          let rest = insert_after_last t id y ys h d in
          let goal : insert_after t id (x ∷ y ∷ ys) ≡ x ∷ insert_after t id (y ∷ ys) =
            rw (f, insert_after) refl in
          goal ∙ ap (λ zs. x ∷ zs) rest
    ]

abbrev pub Pushes : RtFifo → ℕ → Bool → RtFifo → Type 0
Pushes f id at_front f' =
    IsFifo f' × (f'.list ≡ (if at_front then id ∷ f.list else f.list ++ (id ∷ [])))

pushed_lem :
    (xs : List ℕ) (t : Option ℕ) (id : ℕ) (at_front : Bool)
    → t ≡ last_or none xs
    → IsDistinct xs
    → member id xs ≡ false
    → Pushes
        (record { list = xs; tail = t })
        id
        at_front
        (push_fifo (record { list = xs; tail = t }) id at_front)
unfolding push_fifo
pushed_lem [] t id true h d n = ((refl, (refl, tt)), refl)
pushed_lem [] t id false h d n = ((refl, (refl, tt)), refl)
pushed_lem (x ∷ xs) t id true h d n = ((h, (n, d)), refl)
pushed_lem (x ∷ xs) none id false h d n =
    let (u, e) = last_some x xs in absurd (let c : none ≡ some u = h ∙ e in cc)
pushed_lem (x ∷ xs) (some t) id false h d n =
    let e = insert_after_last t id x xs (sym h) d in
    (
      (
        sym (ap (last_or none) e ∙ last_or-append (some x) xs id),
        subst IsDistinct (sym e) (append-IsDistinct id (x ∷ xs) d n),
      ),
      e,
    )

abbrev pub PopsFront : RtFifo → RtFifo × Option ℕ → Type 0
PopsFront f (f', none) = (f.list ≡ []) × IsFifo f'
PopsFront f (f', some x) = (f.list ≡ x ∷ f'.list) × IsFifo f'

popped_lem :
    (xs : List ℕ) (t : Option ℕ)
    → t ≡ last_or none xs
    → IsDistinct xs
    → PopsFront (record { list = xs; tail = t }) (pop_fifo (record { list = xs; tail = t }))
unfolding pop_fifo
popped_lem [] t h d = (refl, (refl, tt))
popped_lem (x ∷ []) t h d = (refl, (refl, tt))
popped_lem (x ∷ (y ∷ ys)) t h (e, d) = (refl, (h, d))

-- On a FIFO whose tail is the last thread of its list, with each thread on it once: a thread that is
-- not on it is pushed to the end of the line, although the code finds that end by the tail only, or to
-- its front if it is to keep its place; a pop takes the first thread in line, and fails on an empty
-- one only. Both leave such a FIFO.
pub fifo_lem :
    (f : RtFifo) (id : ℕ) (at_front : Bool)
    → IsFifo f
    → member id f.list ≡ false
    → Pushes f id at_front (push_fifo f id at_front) × PopsFront f (pop_fifo f)
fifo_lem f id at_front (h, d) n =
    (pushed_lem f.list f.tail id at_front h d n, popped_lem f.list f.tail h d)
