-- ===== src/Pcp/Tests.antt =====
-- A list that is pushed to and popped from.
use erebus.Base.{arith, ◌≡◌, refl, ◌⊎◌}
use erebus.Pcp.{PcpList, empty_list, push_hot, pop_hot, pop_cold}
use erebus.Pcp.Ring.{IsRing, push_hot_lem, ring_lem, Pushed, PopsFirst, PopsLast}

empty_list-IsRing : IsRing empty_list
empty_list-IsRing = record { head_lt = omega arith; count_le = omega arith; tail_eq = refl }

-- A ring that is about to wrap around.
abbrev wrapping : PcpList
wrapping = record empty_list { head = 255; tail = 255 }

wrapping-IsRing : IsRing wrapping
wrapping-IsRing = record { head_lt = omega arith; count_le = omega arith; tail_eq = refl }

abbrev one : PcpList
one = push_hot wrapping 7

one-IsRing : IsRing one
one-IsRing = (push_hot_lem wrapping 7 wrapping-IsRing (omega arith)).0

one-count : one.count ≡ 1
unfolding push_hot
one-count = refl

ring_lem_example :
    ((one.count ≡ 256) ⊎ Pushed one 9 (push_hot one 9))
    × PopsLast one (pop_hot one)
    × PopsFirst one (pop_cold one)
ring_lem_example = ring_lem one 9 one-IsRing
