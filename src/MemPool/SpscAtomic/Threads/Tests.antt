-- ===== src/MemPool/SpscAtomic/Threads/Tests.antt =====
-- Reader and writer of `spsc_atomic_mem_pool` in src/mem_pool.hpp, interleaved on a pool of two.
use mathlib.Core.List.{Nodup}
use rfdts.Base.{ℕ, ◌≡◌, ◌≢◌, ◌⊎◌, refl, List, [], ◌∷◌, some, ok, arith}
use rfdts.Buffers.Samples.{bases}
use rfdts.MemPool.SpscAtomic.{SpscAtomicMemPool, put}
use rfdts.MemPool.SpscAtomic.Life.{Built, atomic_construct-Built}
use rfdts.MemPool.SpscAtomic.Use.{Sound, by_get, take, take_cons, put_room, rear-ne}
use rfdts.MemPool.SpscAtomic.Threads.{
  may_read, resting, storing, load_front, pass, load_rear, System, reads, writes, Reach, later,
  init,
}
use rfdts.MemPool.SpscAtomic.Threads.Inv.{Inv}
use rfdts.MemPool.SpscAtomic.Threads.Safety.{
  Reach-Inv, no_race, threads_go_on, ReaderMoves, WriterMoves, threads_never_shared,
}
use rfdts.MemPool.SpscAtomic.Threads.Alone.{get_alone, put_alone, quiet}

abbrev two : Built 8 2 bases
two = atomic_construct-Built 8 2 bases (omega arith)

two_sound : Sound 2 two.pool (0 ∷ 1 ∷ [])
two_sound = record { repr = two.sound; size_eq = two.elenum_eq; bounded = omega arith }

one_left :
    (p : SpscAtomicMemPool) × (take (by_get 0) two.pool ≡ ok (some 0, p)) × Sound 2 p (1 ∷ [])
one_left = take_cons 2 (by_get 0) two.pool 0 (1 ∷ []) two_sound

get_alone_example : Reach (quiet two.pool []) (quiet one_left.0 (0 ∷ []))
get_alone_example = get_alone two.pool one_left.0 0 [] one_left.1

given_back : (p : SpscAtomicMemPool) × (put one_left.0 (some 0) ≡ ok p) × Sound 2 p (1 ∷ 0 ∷ [])
given_back = put_room 2 one_left.0 (1 ∷ []) 0 one_left.2 (omega arith) (omega arith)

put_alone_example : Reach (quiet one_left.0 (0 ∷ [])) (quiet given_back.0 [])
put_alone_example = put_alone one_left.0 given_back.0 [] [] 0 given_back.1

-- The reader is past its loop while the writer is about to store.
abbrev midway : System
midway = record {
  pool = one_left.0;
  reader = may_read one_left.0.ringqueue.front;
  writer = storing one_left.0.ringqueue.rear 0;
  held = [];
}

reached : Reach (init two.pool) midway
reached =
    later (later (later get_alone_example (reads load_front)) (writes (load_rear [] [] 0 refl)))
      (reads (pass (rear-ne one_left.0 1 [] one_left.2.repr (omega (arith, one_left.2.size_eq)))))

Reach-Inv_example : Inv 2 midway.pool midway.reader midway.writer midway.held
Reach-Inv_example = Reach-Inv 8 2 bases (omega arith) two.returns reached

no_race_example : one_left.0.ringqueue.front ≢ one_left.0.ringqueue.rear
no_race_example =
    no_race 8 2 bases (omega arith) two.returns reached one_left.0.ringqueue.front
      one_left.0.ringqueue.rear 0 refl refl

threads_go_on_example : ReaderMoves midway × ((midway.writer ≡ resting) ⊎ WriterMoves midway)
threads_go_on_example = threads_go_on 8 2 bases (omega arith) two.returns reached

abbrev in_hand : List ℕ
in_hand = 0 ∷ []

threads_never_shared_example : Nodup in_hand
threads_never_shared_example = threads_never_shared 8 2 bases (omega arith) two.returns reached
