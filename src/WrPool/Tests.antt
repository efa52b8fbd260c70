-- ===== src/WrPool/Tests.antt =====
-- The pool of src/wr_pool.hpp on concrete inputs.
use mathlib.Core.List.{Nodup, Mem}
use rfdts.Base.{
  ℕ, ◌+◌, ◌≤◌, ◌≡◌, refl, ◌∙◌, sym, ap, List, [], ◌∷◌, Option, none, some, Outcome, ok, blocked,
  fault, arith, read, write, store, ◌>>=◌, inr, exited, errno, einval, if◌then◌else◌, ◌==◌,
}
use rfdts.Buffers.Samples.{bases}
use rfdts.Buffers.{Sge, element_addr, prepare, stamp}
use rfdts.Buffers.Layout.{Fits, regions_disjoint}
use rfdts.Base.Words.{u32}
use rfdts.Pool.Users.{start, later, acquire}
use rfdts.WrPool.{WrPool, get, put, construct, members, fill_from, fill, move, destroy}
use rfdts.Ring.{step32, step64, put_slot, take_slot, claim_flag}
use rfdts.WrPool.Repr.{Got, Put, get_next, get_empty, put_back, put_full}
use rfdts.WrPool.Construct.{Built, construct_free, construct_invalid}
use rfdts.WrPool.Life.{destroy_returned, move_released}
use rfdts.WrPool.Use.{UsedFrom, never_shared, get_available, put_accepted}

construct_free_example : Built 8 2 bases
construct_free_example = construct_free 8 2 bases (omega arith) (omega arith) (omega arith)

construct_invalid_example : construct 0 5 bases ≡ exited (errno einval)
construct_invalid_example = construct_invalid 0 5 bases (inr refl)

abbrev two : Built 8 2 bases
two = construct_free 8 2 bases (omega arith) (omega arith) (omega arith)

abbrev two_pool : WrPool
two_pool = two.pool

-- The pool after one work request has been taken, and after both have.
abbrev one_left : Got two_pool 0 (1 ∷ [])
one_left = get_next two_pool 0 (1 ∷ []) two.sound

abbrev none_left : Got one_left.after 1 []
none_left = get_next one_left.after 1 [] one_left.sound

get_next_example : Got two_pool 0 (1 ∷ [])
get_next_example = get_next two_pool 0 (1 ∷ []) two.sound

get_empty_example : get none_left.after ≡ fault
get_empty_example = get_empty none_left.after none_left.sound

size_left : one_left.after.elenum ≡ 2
size_left = one_left.same.elenum_eq ∙ two.elenum_eq

size_none_left : none_left.after.elenum ≡ 2
size_none_left = none_left.same.elenum_eq ∙ size_left

put_back_example : Put one_left.after (1 ∷ []) 0
put_back_example =
    put_back one_left.after (1 ∷ []) 0 one_left.sound (omega (arith, size_left))
      (omega (arith, size_left, one_left.sound.rqnum_eq))

-- A third work request put into a pool of two fills the sentinel slot.
abbrev overfull : Put two_pool (0 ∷ 1 ∷ []) 0
overfull =
    put_back two_pool (0 ∷ 1 ∷ []) 0 two.sound (omega (arith, two.elenum_eq))
      (omega (arith, two.elenum_eq, two.sound.rqnum_eq))

size_overfull : overfull.after.elenum ≡ 2
size_overfull = ap (λ b. b.elenum) (sym overfull.same) ∙ two.elenum_eq

put_full_example : put overfull.after (some 1) ≡ blocked
put_full_example =
    put_full overfull.after (0 ∷ 1 ∷ 0 ∷ []) (some 1) overfull.sound
      (omega (arith, size_overfull, overfull.sound.rqnum_eq))

destroy_returned_example :
    destroy two_pool ≡ (if 2 == two_pool.elenum then ok (move two_pool).1 else blocked)
destroy_returned_example =
    destroy_returned two_pool (0 ∷ 1 ∷ []) two.sound (omega (arith, two.elenum_eq))
      (omega (arith, two.elenum_eq)) (omega (arith, two.addr_eq))

taken_once : UsedFrom 2 two_pool one_left.after (0 ∷ [])
taken_once = later start (acquire tt 0 one_left.after one_left.returns)

abbrev zeroth : List ℕ
zeroth = 0 ∷ []

never_shared_example : Nodup zeroth × (¬ Mem 1 zeroth)
never_shared_example =
    never_shared 8 2 bases (omega arith) (omega arith) (omega arith) two.returns taken_once 1
      none_left.after none_left.returns

get_available_example : (x : ℕ) × (p : WrPool) × (get one_left.after ≡ ok (some x, p))
get_available_example =
    get_available 8 2 bases (omega arith) (omega arith) (omega arith) two.returns taken_once
      (omega arith)

put_accepted_example : (p : WrPool) × (put one_left.after (some 0) ≡ ok p)
put_accepted_example =
    put_accepted 8 2 bases (omega arith) (omega arith) (omega arith) two.returns taken_once [] [] 0
      refl

move_released_example :
    ((move two_pool).0 ≡ two_pool)
    × (destroy (move two_pool).1 ≡ ok (move two_pool).1)
    × (get (move two_pool).1 ≡ fault)
    × (put (move two_pool).1 none ≡ fault)
move_released_example = move_released two_pool none

abbrev two_rounds : Outcome (Option ℕ × Option ℕ)
two_rounds = do p ← construct 8 2 bases; (a, p) ← get p; p ← put p a; (b, p) ← get p; ok (a, b)

two_rounds_result : two_rounds ≡ ok (some 0, some 1)
unfolding construct members fill_from fill get put claim_flag prepare stamp put_slot take_slot
    step32 step64 store read write
two_rounds_result = refl

size_two : two_pool.elenum ≡ 2
size_two = two.elenum_eq

abbrev sge_of : ℕ → Sge
sge_of j = record { addr = element_addr two_pool.buffers j; length = u32 two_pool.elesize }

two_Fits : Fits two_pool.buffers
two_Fits = record {
  length_eq = two.length_eq ∙ sym (rw (two.elesize_eq, size_two) refl);
  in_space = rw (two.elesize_eq, size_two, two.addr_eq) (omega arith);
  entry_fits = rw two.elesize_eq (omega arith);
}

regions_disjoint_example :
    (two_pool.addr ≤ (sge_of 0).addr)
    × ((sge_of 0).addr + (sge_of 0).length ≤ (sge_of 1).addr)
    × ((sge_of 1).addr + (sge_of 1).length ≤ two_pool.addr + two_pool.length)
regions_disjoint_example =
    regions_disjoint two_pool.buffers 0 1 (sge_of 0) (sge_of 1) two.sound.laid two_Fits
      (omega arith) (omega (arith, size_two)) (two.sound.laid.sge 0 (omega (arith, size_two)))
      (two.sound.laid.sge 1 (omega (arith, size_two)))
