-- ===== src/MemPool/SpscAtomic/Tests.antt =====
-- `spsc_atomic_mem_pool` of src/mem_pool.hpp on concrete inputs.
use mathlib.Core.List.{Nodup, Mem}
use rfdts.Base.{
  ℕ, ◌+◌, ◌≡◌, ◌≢◌, refl, List, [], ◌∷◌, some, ok, blocked, exited, failure, fault, arith,
  if◌then◌else◌, ◌==◌,
}
use rfdts.Buffers.Samples.{bases}
use rfdts.Sem.Api.{Timespec}
use rfdts.Pool.Users.{start, later, acquire}
use rfdts.MemPool.Waiting.{time_await}
use rfdts.MemPool.Waiting.Bounds.{time_await_ends}
use rfdts.MemPool.SpscAtomic.{SpscAtomicMemPool, get, tryget, timeget, put, move, destroy, emptied}
use rfdts.MemPool.SpscAtomic.Repr.{
  Gets, Puts, atomic_get-Gets, atomic_tryget-Gets, atomic_timeget-Gets, atomic_gets_empty,
  atomic_put-Puts,
}
use rfdts.MemPool.SpscAtomic.Life.{
  Built, atomic_construct-Built, atomic_destroy_returned, atomic_move_released,
}
use rfdts.MemPool.SpscAtomic.Use.{
  by_get, by_tryget, by_timeget, UsedFrom, take, Sound, take_cons, spsc_atomic_never_shared,
  spsc_atomic_available, spsc_atomic_accepted,
}

atomic_construct-Built_example : Built 8 2 bases
atomic_construct-Built_example = atomic_construct-Built 8 2 bases (omega arith)

abbrev two : Built 8 2 bases
two = atomic_construct-Built 8 2 bases (omega arith)

two_sound : Sound 2 two.pool (0 ∷ 1 ∷ [])
two_sound = record { repr = two.sound; size_eq = two.elenum_eq; bounded = omega arith }

abbrev early : Timespec
early = record { tv_sec = 3; tv_nsec = 999_999_500 }

-- A clock that moves on by a second for each call.
abbrev clock : ℕ → Timespec
clock k = record { tv_sec = 3 + k; tv_nsec = 999_999_500 }

one_left : (p : SpscAtomicMemPool) × (take by_tryget two.pool ≡ ok (some 0, p)) × Sound 2 p (1 ∷ [])
one_left = take_cons 2 by_tryget two.pool 0 (1 ∷ []) two_sound

none_left :
    (p : SpscAtomicMemPool) × (take (by_timeget early clock 4) one_left.0 ≡ ok (some 1, p))
    × Sound 2 p []
none_left = take_cons 2 (by_timeget early clock 4) one_left.0 1 [] one_left.2

abbrev stuck : ℕ → ℕ → ℕ
stuck front k = front

-- The writer's progress shows in the third load.
abbrev third : ℕ → ℕ → ℕ
third front k = if k == 2 then front + 1 else front

atomic_get-Gets_example : Gets (get (third two.pool.ringqueue.front) 5 two.pool) two.pool 0 (1 ∷ [])
atomic_get-Gets_example =
    atomic_get-Gets (third two.pool.ringqueue.front) 2 5 two.pool 0 (1 ∷ []) (omega arith)
      (omega arith) two.sound

atomic_tryget-Gets_example :
    Gets (tryget (third two.pool.ringqueue.front) two.pool) two.pool 0 (1 ∷ [])
atomic_tryget-Gets_example =
    atomic_tryget-Gets (third two.pool.ringqueue.front) 2 two.pool 0 (1 ∷ []) (omega arith)
      (omega arith) two.sound

abbrev ahead : ℕ → ℕ → ℕ
ahead front k = front + 1

atomic_timeget-Gets_example :
    Gets (timeget early clock (ahead two.pool.ringqueue.front) 1 two.pool) two.pool 0 (1 ∷ [])
atomic_timeget-Gets_example =
    atomic_timeget-Gets early clock (ahead two.pool.ringqueue.front) 1 two.pool 0 (1 ∷ [])
      (omega arith) (omega arith) two.sound

atomic_gets_empty_example :
    (get (stuck none_left.0.ringqueue.front) 7 none_left.0 ≡ blocked)
    × (tryget (stuck none_left.0.ringqueue.front) none_left.0 ≡ exited failure)
    × (timeget early clock (stuck none_left.0.ringqueue.front) 7 none_left.0 ≡ exited failure)
atomic_gets_empty_example =
    atomic_gets_empty early clock (stuck none_left.0.ringqueue.front) 7 1 none_left.0 (λ k. refl)
      refl (omega arith)

time_await_ends_example : time_await 7 early clock (stuck 4) 0 4 ≢ blocked
time_await_ends_example = time_await_ends 7 early clock (stuck 4) 0 1 4 refl (omega arith)

atomic_put-Puts_example : Puts one_left.0 (1 ∷ []) 0
atomic_put-Puts_example =
    atomic_put-Puts one_left.0 (1 ∷ []) 0 one_left.2.repr (omega (arith, one_left.2.size_eq))
      (omega (arith, one_left.2.size_eq))

atomic_destroy_returned_example :
    destroy two.pool ≡ (if 2 == two.pool.elenum then ok (emptied two.pool) else blocked)
atomic_destroy_returned_example =
    atomic_destroy_returned two.pool (0 ∷ 1 ∷ []) two.sound (omega (arith, two.elenum_eq))
      (omega (arith, two.elenum_eq)) (omega (arith, two.addr_eq))

atomic_move_released_example :
    ((move two.pool).0 ≡ two.pool)
    × (destroy (move two.pool).1 ≡ ok (move two.pool).1)
    × (put (move two.pool).1 (some 1) ≡ fault)
atomic_move_released_example = atomic_move_released two.pool (some 1)

taken_once : UsedFrom 2 two.pool one_left.0 (0 ∷ [])
taken_once = later start (acquire by_tryget 0 one_left.0 one_left.1)

abbrev zeroth : List ℕ
zeroth = 0 ∷ []

spsc_atomic_never_shared_example : Nodup zeroth × (¬ Mem 1 zeroth)
spsc_atomic_never_shared_example =
    spsc_atomic_never_shared 8 2 bases (omega arith) two.returns taken_once
      (by_timeget early clock 4) 1 none_left.0 none_left.1

spsc_atomic_available_example :
    (x : ℕ) × (p : SpscAtomicMemPool) × (take (by_get 3) one_left.0 ≡ ok (some x, p))
spsc_atomic_available_example =
    spsc_atomic_available 8 2 bases (omega arith) two.returns taken_once (by_get 3) (omega arith)

spsc_atomic_accepted_example : (p : SpscAtomicMemPool) × (put one_left.0 (some 0) ≡ ok p)
spsc_atomic_accepted_example =
    spsc_atomic_accepted 8 2 bases (omega arith) two.returns taken_once [] [] 0 refl
