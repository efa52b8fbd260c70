-- ===== src/WrPool/Race/Tests.antt =====
-- Two threads in `put` of src/wr_pool.hpp on a concrete pool.
use rfdts.Base.{◌≡◌, ◌∙◌, [], ◌∷◌, arith}
use rfdts.Buffers.Samples.{bases}
use rfdts.WrPool.Construct.{Built, construct_free}
use rfdts.WrPool.Repr.{Got, get_next}
use rfdts.WrPool.Race.Lost.{Lost, put-Lost}

abbrev three : Built 8 3 bases
three = construct_free 8 3 bases (omega arith) (omega arith) (omega arith)

abbrev two_left : Got three.pool 0 (1 ∷ 2 ∷ [])
two_left = get_next three.pool 0 (1 ∷ 2 ∷ []) three.sound

abbrev one_left : Got two_left.after 1 (2 ∷ [])
one_left = get_next two_left.after 1 (2 ∷ []) two_left.sound

abbrev none_left : Got one_left.after 2 []
none_left = get_next one_left.after 2 [] one_left.sound

size_left : none_left.after.elenum ≡ 3
size_left =
    none_left.same.elenum_eq ∙ one_left.same.elenum_eq ∙ two_left.same.elenum_eq ∙ three.elenum_eq

put-Lost_example : Lost none_left.after (0 ∷ 1 ∷ 2 ∷ []) 2 (0 ∷ [])
put-Lost_example =
    put-Lost none_left.after 0 1 2 [] none_left.sound
      (omega (arith, size_left), (omega (arith, size_left), (omega (arith, size_left), tt)))
