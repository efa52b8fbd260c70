-- ===== src/MemPool/MpscSem/Tests.antt =====
-- `mpsc_sem_mem_pool` of src/mem_pool.hpp on concrete inputs, over counting semaphores.
use mathlib.Core.List.{Nodup, Mem}
use rfdts.Base.{
  ℕ, ◌≡◌, refl, ◌∙◌, sym, List, [], ◌∷◌, some, ok, blocked, exited, failure, errno, einval, arith,
  if◌then◌else◌, ◌==◌,
}
use rfdts.Buffers.Samples.{bases}
use rfdts.Sem.Api.{Timespec}
use rfdts.Sem.Counting.{counting}
use rfdts.Pool.Users.{start, later, acquire}
use rfdts.MemPool.MpscSem.{MpscSemMemPool, get, tryget, timeget, put, destroy, emptied}
use rfdts.MemPool.MpscSem.Repr.{
  Gets, Puts, mpsc_sem_get-Gets, mpsc_sem_tryget-Gets, mpsc_sem_timeget-Gets, mpsc_sem_gets_empty,
  mpsc_sem_put-Puts, mpsc_sem_put_full,
}
use rfdts.MemPool.MpscSem.Life.{Built, mpsc_sem_construct-Built}
use rfdts.MemPool.SpscSem.Use.{by_get, by_tryget, by_timeget}
use rfdts.MemPool.MpscSem.Use.{
  UsedFrom, mpsc_sem_destroy_complete, Moved, mpsc_sem_move-Moved, mpsc_sem_never_shared,
  mpsc_sem_available, mpsc_sem_accepted,
}

mpsc_sem_construct-Built_example : Built counting 8 2 bases
mpsc_sem_construct-Built_example =
    mpsc_sem_construct-Built counting 8 2 bases (omega arith) (omega arith) (omega arith)

abbrev two : Built counting 8 2 bases
two = mpsc_sem_construct-Built counting 8 2 bases (omega arith) (omega arith) (omega arith)

abbrev late : Timespec
late = record { tv_sec = 3; tv_nsec = 999_999_500 }

abbrev one_left : Gets counting (tryget counting two.pool) two.pool 0 (1 ∷ [])
one_left = mpsc_sem_tryget-Gets counting two.pool 0 (1 ∷ []) two.sound

abbrev none_left : Gets counting (timeget counting late one_left.after) one_left.after 1 []
none_left = mpsc_sem_timeget-Gets counting late one_left.after 1 [] one_left.sound

mpsc_sem_get-Gets_example : Gets counting (get counting two.pool) two.pool 0 (1 ∷ [])
mpsc_sem_get-Gets_example = mpsc_sem_get-Gets counting two.pool 0 (1 ∷ []) two.sound

mpsc_sem_tryget-Gets_example : Gets counting (tryget counting two.pool) two.pool 0 (1 ∷ [])
mpsc_sem_tryget-Gets_example = mpsc_sem_tryget-Gets counting two.pool 0 (1 ∷ []) two.sound

mpsc_sem_timeget-Gets_example :
    Gets counting (timeget counting late one_left.after) one_left.after 1 []
mpsc_sem_timeget-Gets_example =
    mpsc_sem_timeget-Gets counting late one_left.after 1 [] one_left.sound

-- The last microsecond of a second: the time to wait until is none.
mpsc_sem_gets_empty_example :
    (get counting none_left.after ≡ blocked)
    × (tryget counting none_left.after ≡ exited failure)
    × (timeget counting late none_left.after ≡ exited (errno einval))
mpsc_sem_gets_empty_example = mpsc_sem_gets_empty counting late none_left.after none_left.sound

size_left : one_left.after.elenum ≡ 2
size_left = one_left.same.elenum_eq ∙ two.elenum_eq

mpsc_sem_put-Puts_example : Puts counting one_left.after (1 ∷ []) 0
mpsc_sem_put-Puts_example =
    mpsc_sem_put-Puts counting one_left.after (1 ∷ []) 0 one_left.sound (omega (arith, size_left))
      (omega (arith, size_left)) (omega (arith, size_left))

mpsc_sem_destroy_complete_example :
    destroy counting two.pool
    ≡ (if 2 == two.pool.elenum then ok (emptied counting two.pool) else blocked)
mpsc_sem_destroy_complete_example =
    mpsc_sem_destroy_complete counting two.pool (0 ∷ 1 ∷ []) two.sound (omega (arith, two.addr_eq))

mpsc_sem_move-Moved_example : Moved counting two.pool (0 ∷ 1 ∷ [])
mpsc_sem_move-Moved_example =
    mpsc_sem_move-Moved counting two.pool (0 ∷ 1 ∷ []) two.sound (omega arith)

taken_once : UsedFrom counting 2 two.pool one_left.after (0 ∷ [])
taken_once = later start (acquire by_tryget 0 one_left.after one_left.returns)

abbrev zeroth : List ℕ
zeroth = 0 ∷ []

mpsc_sem_never_shared_example : Nodup zeroth × (¬ Mem 1 zeroth)
mpsc_sem_never_shared_example =
    mpsc_sem_never_shared counting 8 2 bases (omega arith) (omega arith) (omega arith) two.returns
      taken_once (by_timeget late) 1 none_left.after none_left.returns

mpsc_sem_available_example :
    (x : ℕ) × (p : MpscSemMemPool ℕ) × (get counting one_left.after ≡ ok (some x, p))
mpsc_sem_available_example =
    mpsc_sem_available counting 8 2 bases (omega arith) (omega arith) (omega arith) two.returns
      taken_once by_get (omega arith)

mpsc_sem_accepted_example : (p : MpscSemMemPool ℕ) × (put counting one_left.after (some 0) ≡ ok p)
mpsc_sem_accepted_example =
    mpsc_sem_accepted counting 8 2 bases (omega arith) (omega arith) (omega arith) two.returns
      taken_once [] [] 0 refl

mpsc_sem_put_full_example : put counting two.pool (some 0) ≡ blocked
mpsc_sem_put_full_example =
    mpsc_sem_put_full counting two.pool (0 ∷ 1 ∷ []) (some 0) two.sound (sym two.elenum_eq)
