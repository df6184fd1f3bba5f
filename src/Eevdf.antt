-- ===== src/Eevdf.antt =====
-- kernel/src/sched/eevdf.cpp and kernel/include/sched/eevdf.hpp: the queue of ordinary threads.
-- An entity is a value with an identity, `id`, that stands for its address; where the code is
-- handed a waiting entity by reference, the model is handed its id and takes the node that
-- `locate` finds. A failed KASSERT is `none`. 64-bit and 128-bit sums keep their wrap-around.
pub mod Entities
pub mod Eligible
pub mod Sums
pub mod Pick
pub mod Account
pub mod Join
pub mod Leave
pub mod Run
pub mod Share
pub mod Lag
mod Tests
use erebus.Base.{
  zero, suc, ℕ, ◌+◌, ◌-◌, ◌*◌, ◌/◌, ◌%◌, ◌^◌, min, max, Bool, true, false, not, ◌&&◌, ◌||◌, Option,
  none, some, List, [], ◌∷◌, ◌++◌, ltb, leb, ◌==◌, if◌then◌else◌, ℤ, pos, negsuc, pos_part,
  neg_part, is_neg, s64, ◌-ℤ◌, clamp_ℤ, add64, add32, sub32, is_some,
}
use erebus.Avl.{
  Tree, leaf, node, Frame, from_left, from_right, Traits, Position, item_of, insert, erase,
  is_empty, last, prev,
}
use Entities.{Entity, to_virtual, to_real}

abbrev pub EntityTree : Type 0
EntityTree = Tree Entity ℕ

abbrev pub lower : Option (Entity × ℕ) → ℕ → ℕ
lower none m = m
lower (some (e, n)) m = min m n

-- `TreeTraits`: by deadline, and each node keeps the lowest virtual runtime below it.
abbrev pub tree_traits : Traits Entity ℕ
tree_traits = record {
  less = λ a b. ltb a.vdeadline b.vdeadline;
  update = λ x l r. lower r (lower l x.vruntime);
}

pub record EevdfQueue : Type 0 where
  pub tree : EntityTree
  pub current : Option Entity
  pub weighted_vruntime : ℕ
  pub total_weight : ℕ
  pub queued : ℕ
  pub last_virtual_time : ℕ

abbrev pub add128 : ℕ → ℕ → ℕ
add128 a b = (a + b) % 2 ^ 128

abbrev pub sub128 : ℕ → ℕ → ℕ
sub128 a b = (a + 2 ^ 128 - b) % 2 ^ 128

unfoldable pub empty_queue : EevdfQueue
empty_queue = record {
  tree = leaf;
  current = none;
  weighted_vruntime = 0;
  total_weight = 0;
  queued = 0;
  last_virtual_time = 0;
}

unfoldable pub virtual_time : EevdfQueue → ℕ
virtual_time q =
    if q.total_weight == 0
    then q.last_virtual_time
    else q.weighted_vruntime / q.total_weight % 2 ^ 64

-- The product is one of `unsigned __int128`.
unfoldable pub is_eligible_at : EevdfQueue → ℕ → Bool
is_eligible_at q vruntime = leb (q.total_weight * vruntime % 2 ^ 128) q.weighted_vruntime

abbrev pub is_eligible : EevdfQueue → Entity → Bool
is_eligible q e = is_eligible_at q e.vruntime

unfoldable pub account_join : EevdfQueue → Entity → EevdfQueue
account_join q e = record q {
  weighted_vruntime = add128 q.weighted_vruntime (e.weight * e.vruntime % 2 ^ 128);
  total_weight = add64 q.total_weight e.weight;
}

abbrev pub max_lag_slices : ℕ
max_lag_slices = 2

-- How much lag an entity can carry away, and what it has now.
unfoldable pub lag_limit : Entity → ℤ
lag_limit e = s64 (to_virtual e (max_lag_slices * e.slice_ns % 2 ^ 64))

unfoldable pub leaving_lag : EevdfQueue → Entity → ℤ
unfolding lag_limit clamp_ℤ ◌-ℤ◌ virtual_time
leaving_lag q e =
    clamp_ℤ (s64 (virtual_time q) -ℤ s64 e.vruntime) (pos 0 -ℤ lag_limit e) (lag_limit e)

-- The queue that the entity has left, and the entity with the lag that it left with.
unfoldable pub account_leave : EevdfQueue → Entity → EevdfQueue × Entity
unfolding leaving_lag virtual_time
account_leave q e = (
  record q {
    weighted_vruntime = sub128 q.weighted_vruntime (e.weight * e.vruntime % 2 ^ 128);
    total_weight = (q.total_weight + 2 ^ 64 - e.weight) % 2 ^ 64;
    last_virtual_time = virtual_time q;
  },
  record e { vlag = leaving_lag q e },
)

-- The node of an entity, which the code knows by its address.
abbrev pub or_else :
    Option (Position Entity ℕ) → Option (Position Entity ℕ) → Option (Position Entity ℕ)
or_else none b = b
or_else (some a) b = some a

unfoldable pub locate_in : ℕ → EntityTree → List (Frame Entity ℕ) → Option (Position Entity ℕ)
locate_in id leaf fs = none
locate_in id (node l x m h r) fs =
    let in_left = locate_in id l (from_left x r ∷ fs) in
    let in_right = locate_in id r (from_right l x ∷ fs) in
    if x.id == id
    then some (record { left = l; item = x; right = r; above = fs })
    else or_else in_left in_right

unfoldable pub locate : EevdfQueue → ℕ → Option (Position Entity ℕ)
unfolding locate_in
locate q id = locate_in id q.tree []

unfoldable pub is_queued : EevdfQueue → ℕ → Bool
unfolding locate
is_queued q id = is_some (locate q id)

unfoldable pub is_current : EevdfQueue → ℕ → Bool
is_current q id = elim q.current [ none ↦ false | some c ↦ c.id == id ]

-- The lag that an entity is to have once it has joined.
abbrev pub magnitude : ℤ → ℕ
magnitude v = (pos_part v + neg_part v) % 2 ^ 64

unfoldable pub joining_lag : EevdfQueue → Entity → ℕ
joining_lag q e =
    if q.total_weight == 0
    then magnitude e.vlag
    else magnitude e.vlag * add64 q.total_weight e.weight % 2 ^ 128 / q.total_weight % 2 ^ 64

-- Where `enqueue` puts the entity on the virtual time line.
unfoldable pub joining_vruntime : EevdfQueue → Entity → ℕ
unfolding joining_lag virtual_time
joining_vruntime q e =
    let now = virtual_time q in
    let lag = joining_lag q e in if is_neg e.vlag then add64 now lag else now - min now lag

unfoldable pub placed : EevdfQueue → Entity → Entity
unfolding joining_vruntime to_virtual
placed q e =
    let vruntime = joining_vruntime q e in
    record e { vruntime = vruntime; vdeadline = add64 vruntime (to_virtual e e.slice_ns) }

-- `m_tree.insert(entity)` and `m_tree.erase(entity)`, each with its count.
unfoldable pub insert_node : EevdfQueue → Entity → EevdfQueue
insert_node q e = record q { tree = insert tree_traits e q.tree; queued = add32 q.queued 1 }

unfoldable pub erase_node : EevdfQueue → Position Entity ℕ → EevdfQueue
erase_node q p = record q { tree = erase tree_traits p; queued = sub32 q.queued 1 }

unfoldable pub enqueue : EevdfQueue → Entity → Option EevdfQueue
unfolding is_queued is_current placed account_join insert_node
enqueue q e =
    if is_queued q e.id || is_current q e.id
    then none
    else some (insert_node (account_join q (placed q e)) (placed q e))

-- Also the entity, which keeps its lag.
unfoldable pub dequeue : EevdfQueue → ℕ → Option (EevdfQueue × Entity)
unfolding locate account_leave erase_node
dequeue q id = elim (locate q id) [
  | none ↦ none
  | some p ↦ some (account_leave (erase_node q p) p.item)
]

unfoldable pub set_current : EevdfQueue → ℕ → Option EevdfQueue
unfolding locate erase_node
set_current q id = elim q.current [
  | some c ↦ none
  | none ↦ elim (locate q id) [
    | none ↦ none
    | some p ↦ some (record (erase_node q p) { current = some p.item })
  ]
]

unfoldable pub requeue_current : EevdfQueue → Option EevdfQueue
unfolding insert_node
requeue_current q = elim q.current [
  | none ↦ none
  | some c ↦ some (record (insert_node q c) { current = none })
]

unfoldable pub retire_current : EevdfQueue → Option (EevdfQueue × Entity)
unfolding account_leave
retire_current q = elim q.current [
  | none ↦ none
  | some c ↦ let (q', c') = account_leave q c in some (record q' { current = none }, c')
]

-- The queue after the charge, and whether the entity has used up its slice.
unfoldable pub charge : EevdfQueue → ℕ → EevdfQueue × Bool
unfolding to_virtual
charge q delta_ns = elim q.current [
  | none ↦ (q, false)
  | some c ↦
      let delta = to_virtual c delta_ns in
      let vruntime = add64 c.vruntime delta in
      let charged = record c { vruntime = vruntime } in
      let weighted = add128 q.weighted_vruntime (c.weight * delta % 2 ^ 128) in
      if ltb vruntime c.vdeadline
      then (record q { current = some charged; weighted_vruntime = weighted }, false)
      else (
        record q {
          current = some (record charged { vdeadline = add64 vruntime (to_virtual c c.slice_ns) });
          weighted_vruntime = weighted;
        },
        true,
      )
]

unfoldable pub yield_current : EevdfQueue → EevdfQueue
unfolding to_virtual
yield_current q = elim q.current [
  | none ↦ q
  | some c ↦ record q {
    current = some (record c { vdeadline = add64 c.vdeadline (to_virtual c c.slice_ns) });
  }
]

-- Whether a left child is there and knows of an eligible entity in its subtree.
unfoldable pub has_eligible : EevdfQueue → EntityTree → Bool
has_eligible q leaf = false
has_eligible q (node l x m h r) = is_eligible_at q m

-- The walk of `pick` from a node down to the leftmost eligible one.
unfoldable pub leftmost_eligible : EevdfQueue → EntityTree → Option Entity
unfolding has_eligible
leftmost_eligible q leaf = none
leftmost_eligible q (node l x m h r) = elim (has_eligible q l) [
  | true ↦ leftmost_eligible q l
  | false ↦ if is_eligible q x then some x else leftmost_eligible q r
]

-- What `pick` asserts when nothing is running.
unfoldable pub pick_assertion : EevdfQueue → Bool
unfolding leftmost_eligible
pick_assertion q = is_some q.current || is_some (leftmost_eligible q q.tree) || is_empty q.tree

unfoldable pub pick : EevdfQueue → Option Entity
unfolding leftmost_eligible
pick q = elim q.current [
  | none ↦ leftmost_eligible q q.tree
  | some c ↦ elim (leftmost_eligible q q.tree) [
    | none ↦ some c
    | some b ↦ if is_eligible q c && leb c.vdeadline b.vdeadline then some c else some b
  ]
]

unfoldable pub preempts_current : EevdfQueue → Entity → Bool
preempts_current q e = elim q.current [
  | none ↦ false
  | some c ↦ is_eligible q e && ltb e.vdeadline c.vdeadline
]

unfoldable pub slice_left_ns : EevdfQueue → ℕ
unfolding to_real
slice_left_ns q = elim q.current [
  | none ↦ 0
  | some c ↦
      if leb c.vdeadline c.vruntime
      then 0
      else min (to_real c (c.vdeadline - c.vruntime)) c.slice_ns
]

unfoldable pub latest : EevdfQueue → Option Entity
latest q = last q.tree

-- The waiting entity due just before this one.
unfoldable pub entity_before : EevdfQueue → Entity → Option Entity
unfolding locate
entity_before q e = elim (locate q e.id) [ none ↦ none | some p ↦ prev p ]

-- The loop of `find_latest`, over its budget.
unfoldable pub find_back : EevdfQueue → (Entity → Bool) → ℕ → Option Entity → Option Entity
unfolding entity_before
find_back q pred zero e = none
find_back q pred (suc budget) none = none
find_back q pred (suc budget) (some e) = elim (pred e) [
  | true ↦ some e
  | false ↦ find_back q pred budget (entity_before q e)
]

unfoldable pub find_latest : EevdfQueue → (Entity → Bool) → ℕ → Option Entity
unfolding find_back latest
find_latest q pred budget = find_back q pred budget (latest q)
