-- ===== src/Heap/Nodes.antt =====
-- kernel/src/memory/heap.cpp: the partial slabs of a node, under its lock. The doubly linked list is a
-- list, and `node_of` is `Page::get_numa_node`.
use erebus.Base.{
  ℕ, ◌/◌, add32, sub32, Bool, true, false, ◌==◌, leb, ltb, ◌&&◌, if◌then◌else◌, Option, none, some,
  List, [], ◌∷◌, ◌++◌,
}
use erebus.Heap.{Slab, NodeCache, KmemCache, put_slab, put_node}

abbrev pub min_partial_pages : ℕ
min_partial_pages = 8

abbrev pub mostly_empty : Slab → Bool
mostly_empty sl = leb sl.in_use (sl.total / 2)

abbrev pub set_listed : Slab → Bool → Slab
set_listed sl b = record sl { on_node_list = b }

-- Off a doubly linked list, at the first place where the slab is on it.
unfoldable pub remove_first : ℕ → List ℕ → List ℕ
remove_first s [] = []
remove_first s (x ∷ xs) = if s == x then xs else x ∷ remove_first s xs

abbrev pub link : NodeCache → ℕ → Slab → NodeCache
link nd s sl = record nd {
  partial = if mostly_empty sl then s ∷ nd.partial else nd.partial ++ s ∷ [];
  num_partial = add32 nd.num_partial 1;
}

abbrev pub has_enough : NodeCache → Slab → Bool
has_enough nd sl = sl.in_use == 0 && leb min_partial_pages nd.num_partial

-- Whether `publish_partial` returns the slab to the PMM, and what it does else.
abbrev pub publish_releases : (ℕ → ℕ) → KmemCache → ℕ → Bool
publish_releases node_of m s = has_enough (m.nodes (node_of s)) (m.slabs s)

unfoldable pub publish_partial : (ℕ → ℕ) → KmemCache → ℕ → KmemCache
publish_partial node_of m s =
    if publish_releases node_of m s
    then m
    else put_slab (put_node m (node_of s) (link (m.nodes (node_of s)) s (m.slabs s))) s
        (set_listed (m.slabs s) true)

abbrev pub discard_releases : (ℕ → ℕ) → KmemCache → ℕ → Bool
discard_releases node_of m s =
    (m.slabs s).on_node_list
    && ((m.slabs s).in_use == 0 && ltb min_partial_pages (m.nodes (node_of s)).num_partial)

abbrev pub unlinked : NodeCache → ℕ → NodeCache
unlinked nd s = record nd {
  partial = remove_first s nd.partial;
  num_partial = sub32 nd.num_partial 1;
}

unfoldable pub discard_if_empty : (ℕ → ℕ) → KmemCache → ℕ → KmemCache
discard_if_empty node_of m s =
    if discard_releases node_of m s
    then put_slab (put_node m (node_of s) (unlinked (m.nodes (node_of s)) s)) s
        (set_listed (m.slabs s) false)
    else m

abbrev pub drop_head : NodeCache → List ℕ → NodeCache
drop_head nd rest = record nd { partial = rest; num_partial = sub32 nd.num_partial 1 }

unfoldable pub pop_from_node_partial : KmemCache → ℕ → Option (ℕ × KmemCache)
pop_from_node_partial m n = elim (m.nodes n).partial [
  | [] ↦ none
  | s ∷ rest ↦
      some
        (s, put_slab (put_node m n (drop_head (m.nodes n) rest)) s (set_listed (m.slabs s) false))
]
