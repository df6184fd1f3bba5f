-- ===== src/Heap/Create.antt =====
-- kernel/src/memory/heap.cpp, kernel/include/utils/maths.hpp: `create`, which sizes a cache and takes
-- three pieces of metadata from caches of their own. Whether each of these has memory is an argument.
use erebus.Base.{
  ℕ, ◌+◌, ◌-◌, ◌%◌, ◌^◌, ◌≤◌, ◌<◌, max, add32, Bool, true, false, ltb, not_ltb→le, ◌==◌, ◌||◌, not,
  if◌then◌else◌, Bool-cases, List, [], ◌∷◌, ◌≡◌, refl, inl, inr, arith,
}
use erebus.Heap.Sizes.{slab_order_for, has_single_bit}

abbrev pub max_block_order : ℕ
max_block_order = 18

-- `align_up` of 32-bit numbers: a mask of the bits below a power of two rounds down.
unfoldable pub align_up : ℕ → ℕ → ℕ
align_up n a = add32 n (a - 1) - add32 n (a - 1) % a

abbrev pub stride : ℕ → Bool → ℕ
stride obj_size red_zone = if red_zone then add32 obj_size 8 else obj_size

unfoldable pub size_for : ℕ → ℕ → Bool → ℕ
size_for obj_size alignment red_zone = align_up (stride obj_size red_zone) (max alignment 8)

pub data Piece : Type 0 where
  cache_piece cpu_piece node_piece : Piece

pub data Created : Type 0 where
  invalid_argument out_of_memory : Created
  made : (size order : ℕ) (red_zone poison : Bool) → Created

-- What comes back, what was taken for it, and what of that was freed again.
pub record Creation : Type 0 where
  pub result : Created
  pub taken : List Piece
  pub freed : List Piece

-- `cache`, `cpu` and `node` say whether the three allocations succeed.
unfoldable pub take_pieces : Bool → Bool → Bool → Created → Creation
take_pieces cache cpu node wanted =
    if not cache
    then record { result = out_of_memory; taken = []; freed = [] }
    else if not cpu
    then record { result = out_of_memory; taken = cache_piece ∷ []; freed = cache_piece ∷ [] }
    else if not node
    then record {
      result = out_of_memory;
      taken = cpu_piece ∷ cache_piece ∷ [];
      freed = cpu_piece ∷ cache_piece ∷ [];
    }
    else record { result = wanted; taken = node_piece ∷ cpu_piece ∷ cache_piece ∷ []; freed = [] }

unfoldable pub create :
    (obj_size alignment : ℕ) (red_zone poison ctor cache cpu node : Bool) → Creation
create obj_size alignment red_zone poison ctor cache cpu node =
    let size = size_for obj_size alignment red_zone in
    let refused : Creation = record { result = invalid_argument; taken = []; freed = [] } in
    if obj_size == 0 || not (has_single_bit alignment)
    then refused
    else if ltb max_block_order (slab_order_for size)
    then refused
    else take_pieces cache cpu node
        (made size (slab_order_for size) red_zone (if ctor then false else poison))

-- What a creation comes to, by its result.
unfoldable pub IsSound : (obj_size alignment : ℕ) (red_zone : Bool) → Created → Creation → Type 0
IsSound obj_size alignment red_zone (made size order red poison) c =
    ((obj_size + (if red_zone then 8 else 0) ≤ size) × (size % max alignment 8 ≡ 0))
    × ((order ≤ max_block_order) × (c.freed ≡ []))
IsSound obj_size alignment red_zone _ c = c.freed ≡ c.taken

align_down_mod : (n a : ℕ) → 0 < a → (n - n % a) % a ≡ 0
align_down_mod n a h = grind arith

mod_less : (n a : ℕ) → 0 < a → n % a < a
mod_less n a h = grind arith

pub size_for_lem :
    (obj_size alignment : ℕ) (red_zone : Bool)
    → obj_size + 8 + max alignment 8 ≤ 2 ^ 32
    → (obj_size + (if red_zone then 8 else 0) ≤ size_for obj_size alignment red_zone)
      × (size_for obj_size alignment red_zone % max alignment 8 ≡ 0)
unfolding size_for align_up
size_for_lem obj_size alignment red_zone h =
    let a = max alignment 8 in
    let n = add32 (stride obj_size red_zone) (a - 1) in
    let less = mod_less n a (omega arith) in
    (ground (arith, less), align_down_mod n a (omega arith))

-- If the object with its red zone and its alignment fits 32 bits: a creation that fails has given back
-- all that it took; one that succeeds keeps all, its objects hold what was asked for and the red zone,
-- at a multiple of the alignment and of a pointer's, and its slabs are blocks that the page allocator has.
pub create-IsSound :
    (obj_size alignment : ℕ) (red_zone poison ctor cache cpu node : Bool)
    → obj_size + 8 + max alignment 8 ≤ 2 ^ 32
    → let c = create obj_size alignment red_zone poison ctor cache cpu node in
      IsSound obj_size alignment red_zone c.result c
unfolding create take_pieces IsSound
create-IsSound obj_size alignment red_zone poison ctor cache cpu node h =
    elim (Bool-cases (obj_size == 0 || not (has_single_bit alignment))) [
      | inl e ↦ rw (create, e) refl
      | inr e ↦
          elim (Bool-cases
            (ltb max_block_order (slab_order_for (size_for obj_size alignment red_zone)))) [
              | inl f ↦ rw (create, e, f) refl
              | inr f ↦
                  rw (create, e, f)
                    (pieces cache cpu node (
                      not_ltb→le max_block_order
                        (slab_order_for (size_for obj_size alignment red_zone)) f))
            ]
    ]
  where
    pieces :
        (cache cpu node : Bool)
        → slab_order_for (size_for obj_size alignment red_zone) ≤ max_block_order
        → let w =
            made
              (size_for obj_size alignment red_zone)
              (slab_order_for (size_for obj_size alignment red_zone))
              red_zone
              (if ctor then false else poison) in
          IsSound obj_size alignment red_zone
            (take_pieces cache cpu node w).result
            (take_pieces cache cpu node w)
    pieces false cpu node le = refl
    pieces true false node le = refl
    pieces true true false le = refl
    pieces true true true le = (size_for_lem obj_size alignment red_zone h, (le, refl))
