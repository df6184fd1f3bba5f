-- ===== src/Avl/Tests.antt =====
-- kernel/include/utils/avl_tree.hpp: runs at fixed inputs, over numbers ordered by `<`, each node
-- keeping the sum below it.
use erebus.Base.{ℕ, ◌+◌, ◌≡◌, refl, Option, none, some, [], ◌∷◌, arith, ltb}
use erebus.Avl.{Tree, leaf, node, Traits, Position, insert, erase, height}
use erebus.Avl.Shape.{to_list, At, here}
use erebus.Avl.Order.{IsStrictWeak, IsOrdered, place, insert_lem, erase_lem}

abbrev plus : Option (ℕ × ℕ) → ℕ → ℕ
plus none n = n
plus (some (x, m)) n = m + n

abbrev numbers : Traits ℕ ℕ
numbers = record { less = ltb; update = λ x l r. plus r (plus l x) }

numbers-IsStrictWeak : IsStrictWeak ltb
numbers-IsStrictWeak = record {
  asymmetric = λ a b h. ground arith;
  cotransitive = λ a b c h k. ground arith;
}

abbrev small : Tree ℕ ℕ
small = node (node leaf 2 2 1 leaf) 5 14 2 (node leaf 7 7 1 leaf)

small-IsOrdered : IsOrdered numbers small
small-IsOrdered = record {
  valid = (
    refl,
    omega arith,
    omega arith,
    refl,
    (refl, omega arith, omega arith, refl, tt, tt),
    (refl, omega arith, omega arith, refl, tt, tt),
  );
  sorted = ((refl, (refl, tt)), ((refl, tt), (tt, tt)));
}

-- The root, which has two children.
abbrev root : Position ℕ ℕ
root = record { left = node leaf 2 2 1 leaf; item = 5; right = node leaf 7 7 1 leaf; above = [] }

root-At : At small root
root-At = record { m = 14; h = 2; within = here }

grown :
    to_list (insert numbers 6 (insert numbers 8 (insert numbers 9 small)))
    ≡ 2 ∷ 5 ∷ 6 ∷ 7 ∷ 8 ∷ 9 ∷ []
unfolding insert
grown = refl

rotated : height (insert numbers 8 (insert numbers 9 small)) ≡ 3
unfolding insert
rotated = refl

insert_lem_example :
    IsOrdered numbers (insert numbers 5 small)
    × (to_list (insert numbers 5 small) ≡ 2 ∷ 5 ∷ 5 ∷ 7 ∷ [])
unfolding place
insert_lem_example = insert_lem numbers numbers-IsStrictWeak 5 small small-IsOrdered

erase_lem_example :
    IsOrdered numbers (erase numbers root)
    × (to_list small ≡ 2 ∷ 5 ∷ 7 ∷ [])
    × (to_list (erase numbers root) ≡ 2 ∷ 7 ∷ [])
erase_lem_example = erase_lem numbers numbers-IsStrictWeak small root small-IsOrdered root-At
