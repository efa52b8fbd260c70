-- ===== src/Queue/Tests.antt =====
-- The queue of src/queue.hpp on concrete inputs, over counting semaphores.
use rfdts.Base.{ℕ, ◌≡◌, List, [], ◌∷◌, ok, blocked, arith, null}
use rfdts.Sem.Counting.{counting}
use rfdts.Queue.{spmc, get, destroy, get_rq_elenum}
use rfdts.Queue.Repr.{Got, Put, get_first, get_waits, put_last}
use rfdts.Queue.Law.{
  Call, puts, gets, fifo, as_pointers, run, run-fifo, Overwrites, overflow-Overwrites,
}
use rfdts.Queue.Life.{Built, construct_empty, elenum-length, destroy_emptied, Moved, move_kept}

construct_empty_example : Built counting ℕ spmc 2 4096 8192
construct_empty_example = construct_empty counting ℕ spmc 2 4096 8192 (omega arith) (omega arith)

abbrev fresh : Built counting ℕ spmc 2 4096 8192
fresh = construct_empty counting ℕ spmc 2 4096 8192 (omega arith) (omega arith)

abbrev one : Put counting spmc fresh.queue [] 7
one =
    put_last counting spmc fresh.queue [] 7 fresh.sound (omega (arith, fresh.rqnum_eq))
      (omega arith)

abbrev full : Put counting spmc one.after (7 ∷ []) 8
full =
    put_last counting spmc one.after (7 ∷ []) 8 one.sound (omega (arith, one.same, fresh.rqnum_eq))
      (omega arith)

put_last_example : Put counting spmc one.after (7 ∷ []) 8
put_last_example =
    put_last counting spmc one.after (7 ∷ []) 8 one.sound (omega (arith, one.same, fresh.rqnum_eq))
      (omega arith)

get_first_example : Got counting spmc full.after 7 (8 ∷ [])
get_first_example = get_first counting spmc full.after 7 (8 ∷ []) full.sound

get_waits_example : get counting spmc fresh.queue ≡ blocked
get_waits_example = get_waits counting spmc fresh.queue fresh.sound

abbrev script : List (Call ℕ)
script = puts 9 ∷ gets ∷ gets ∷ []

run-fifo_example : run counting spmc one.after script ≡ as_pointers (fifo (7 ∷ []) script)
run-fifo_example =
    run-fifo counting spmc script one.after (7 ∷ []) one.sound
      (omega (arith, one.same, fresh.rqnum_eq)) (omega (arith, one.same, fresh.rqnum_eq), tt)

overflow-Overwrites_example : Overwrites counting spmc full.after 9
overflow-Overwrites_example =
    overflow-Overwrites counting spmc full.after (7 ∷ 8 ∷ []) 9 full.sound
      (omega (arith, full.same, one.same, fresh.rqnum_eq)) (omega arith)

elenum-length_example : get_rq_elenum counting full.after ≡ ok 2
elenum-length_example = elenum-length counting spmc full.after (7 ∷ 8 ∷ []) full.sound

destroy_emptied_example :
    destroy counting fresh.queue
    ≡ ok (record (fresh.queue) { rq = record (fresh.queue.rq) { slots = null }; rq_flags = null })
destroy_emptied_example =
    destroy_emptied counting spmc fresh.queue [] fresh.sound (omega (arith, fresh.addr_eq))

move_kept_example : Moved counting spmc full.after (7 ∷ 8 ∷ [])
move_kept_example = move_kept counting spmc full.after (7 ∷ 8 ∷ []) full.sound (omega arith)
