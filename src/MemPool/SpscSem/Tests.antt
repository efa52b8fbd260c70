-- ===== src/MemPool/SpscSem/Tests.antt =====
-- `spsc_sem_mem_pool` of src/mem_pool.hpp on concrete inputs, over counting semaphores.
use mathlib.Core.List.{Nodup, Mem}
use rfdts.Base.{
  ℕ, ◌≡◌, refl, ◌∙◌, List, [], ◌∷◌, some, ok, blocked, exited, failure, errno, einval, arith,
  if◌then◌else◌, ◌==◌,
}
use rfdts.Buffers.Samples.{bases}
use rfdts.Sem.Api.{Timespec}
use rfdts.Sem.Counting.{counting}
use rfdts.Pool.Users.{start, later, acquire}
use rfdts.MemPool.SpscSem.{SpscSemMemPool, get, tryget, timeget, put, destroy, emptied}
use rfdts.MemPool.SpscSem.Repr.{
  Gets, Puts, get-Gets, tryget-Gets, timeget-Gets, gets_empty, put-Puts,
}
use rfdts.MemPool.SpscSem.Life.{Built, construct-Built}
use rfdts.MemPool.SpscSem.Use.{
  by_get, by_tryget, by_timeget, UsedFrom, destroy_complete, Moved, move-Moved,
  spsc_sem_never_shared, spsc_sem_available, spsc_sem_accepted,
}

construct-Built_example : Built counting 8 2 bases
construct-Built_example =
    construct-Built counting 8 2 bases (omega arith) (omega arith) (omega arith)

abbrev two : Built counting 8 2 bases
two = construct-Built counting 8 2 bases (omega arith) (omega arith) (omega arith)

abbrev late : Timespec
late = record { tv_sec = 3; tv_nsec = 999_999_500 }

abbrev one_left : Gets counting (tryget counting two.pool) two.pool 0 (1 ∷ [])
one_left = tryget-Gets counting two.pool 0 (1 ∷ []) two.sound

abbrev none_left : Gets counting (timeget counting late one_left.after) one_left.after 1 []
none_left = timeget-Gets counting late one_left.after 1 [] one_left.sound

get-Gets_example : Gets counting (get counting two.pool) two.pool 0 (1 ∷ [])
get-Gets_example = get-Gets counting two.pool 0 (1 ∷ []) two.sound

tryget-Gets_example : Gets counting (tryget counting two.pool) two.pool 0 (1 ∷ [])
tryget-Gets_example = tryget-Gets counting two.pool 0 (1 ∷ []) two.sound

timeget-Gets_example : Gets counting (timeget counting late one_left.after) one_left.after 1 []
timeget-Gets_example = timeget-Gets counting late one_left.after 1 [] one_left.sound

-- The last microsecond of a second: the time to wait until is none.
gets_empty_example :
    (get counting none_left.after ≡ blocked)
    × (tryget counting none_left.after ≡ exited failure)
    × (timeget counting late none_left.after ≡ exited (errno einval))
gets_empty_example = gets_empty counting late none_left.after none_left.sound

size_left : one_left.after.elenum ≡ 2
size_left = one_left.same.elenum_eq ∙ two.elenum_eq

put-Puts_example : Puts counting one_left.after (1 ∷ []) 0
put-Puts_example =
    put-Puts counting one_left.after (1 ∷ []) 0 one_left.sound (omega (arith, size_left))
      (omega (arith, size_left)) (omega (arith, size_left))

destroy_complete_example :
    destroy counting two.pool
    ≡ (if 2 == two.pool.elenum then ok (emptied counting two.pool) else blocked)
destroy_complete_example =
    destroy_complete counting two.pool (0 ∷ 1 ∷ []) two.sound (omega (arith, two.addr_eq))

move-Moved_example : Moved counting two.pool (0 ∷ 1 ∷ [])
move-Moved_example = move-Moved counting two.pool (0 ∷ 1 ∷ []) two.sound (omega arith)

taken_once : UsedFrom counting 2 two.pool one_left.after (0 ∷ [])
taken_once = later start (acquire by_tryget 0 one_left.after one_left.returns)

abbrev zeroth : List ℕ
zeroth = 0 ∷ []

spsc_sem_never_shared_example : Nodup zeroth × (¬ Mem 1 zeroth)
spsc_sem_never_shared_example =
    spsc_sem_never_shared counting 8 2 bases (omega arith) (omega arith) (omega arith) two.returns
      taken_once (by_timeget late) 1 none_left.after none_left.returns

spsc_sem_available_example :
    (x : ℕ) × (p : SpscSemMemPool ℕ) × (get counting one_left.after ≡ ok (some x, p))
spsc_sem_available_example =
    spsc_sem_available counting 8 2 bases (omega arith) (omega arith) (omega arith) two.returns
      taken_once by_get (omega arith)

spsc_sem_accepted_example : (p : SpscSemMemPool ℕ) × (put counting one_left.after (some 0) ≡ ok p)
spsc_sem_accepted_example =
    spsc_sem_accepted counting 8 2 bases (omega arith) (omega arith) (omega arith) two.returns
      taken_once [] [] 0 refl
