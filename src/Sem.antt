-- ===== src/Sem.antt =====
-- `posix_sem` of src/sem.hpp, over the semaphores of the C library.
pub mod Api
pub mod Calls
pub mod Counting
mod Tests
use Prim.Native.String.{String, len}
use rfdts.Base.{
  ℕ, Option, none, some, List, [], ◌∷◌, Outcome, ok, blocked, exited, fault, errno, Errno, eagain,
  etimedout, ◌>>=◌, ◌==◌, if◌then◌else◌,
}
use rfdts.Sem.Api.{SemApi, Reply, done, refused, waits, Timespec}

-- `sem` is `none` for a null pointer. An unnamed semaphore has the empty name.
pub record PosixSem (S : Type 0) : Type 0 where
  pub sem : Option S
  pub name : String

-- What the destructor does to the semaphore, in order.
pub data Effect : Type 0 where
  sem_close sem_unlink delete sem_destroy : Effect

module _ (api : SemApi) where
  open api use {S}

  -- PEIE ends the program with `errno`, which the failed call has set.
  abbrev made : Reply S → String → Outcome (PosixSem S)
  made (done s) name = ok (record { sem = some s; name = name })
  made (refused e) name = exited (errno e)
  made waits name = blocked

  unfoldable pub unnamed : ℕ → ℕ → Outcome (PosixSem S)
  unnamed pshared value = made (api.sem_init pshared value) ""

  -- The three constructors for a named semaphore differ in how they take the name.
  unfoldable pub named : String → ℕ → ℕ → ℕ → Outcome (PosixSem S)
  named name oflag mode value = made (api.sem_open name oflag mode value) name

  -- The move constructor: the new object, and the old one.
  unfoldable pub move : PosixSem S → PosixSem S × PosixSem S
  move ref = (ref, record ref { sem = none })

  -- A call on `sem` that must not fail.
  abbrev or_exit : Reply S → PosixSem S → Outcome (PosixSem S)
  or_exit (done s) p = ok (record p { sem = some s })
  or_exit (refused e) p = exited (errno e)
  or_exit waits p = blocked

  unfoldable pub post : PosixSem S → Outcome (PosixSem S)
  post p = elim p.sem [ none ↦ fault | some s ↦ or_exit (api.sem_post s) p ]

  unfoldable pub wait : PosixSem S → Outcome (PosixSem S)
  wait p = elim p.sem [ none ↦ fault | some s ↦ or_exit (api.sem_wait s) p ]

  -- The result is `none` for 0, and the error that the caller is told of otherwise.
  abbrev or_tell : Errno → Reply S → PosixSem S → Outcome (Option Errno × PosixSem S)
  or_tell told (done s) p = ok (none, record p { sem = some s })
  or_tell told waits p = blocked
  or_tell Errno.eagain (refused Errno.eagain) p = ok (some eagain, p)
  or_tell Errno.etimedout (refused Errno.etimedout) p = ok (some etimedout, p)
  or_tell told (refused e) p = exited (errno e)

  unfoldable pub trywait : PosixSem S → Outcome (Option Errno × PosixSem S)
  trywait p = elim p.sem [ none ↦ fault | some s ↦ or_tell eagain (api.sem_trywait s) p ]

  unfoldable pub timewait : Timespec → PosixSem S → Outcome (Option Errno × PosixSem S)
  timewait t p = elim p.sem [ none ↦ fault | some s ↦ or_tell etimedout (api.sem_timedwait t s) p ]

  unfoldable pub getvalue : PosixSem S → Outcome ℕ
  getvalue p = elim p.sem [ none ↦ fault | some s ↦ ok (api.sem_getvalue s) ]

-- The destructor. Of an unnamed semaphore it frees the memory before it destroys the semaphore
-- that stood there.
unfoldable pub destroy : {S : Type 0} → PosixSem S → List Effect
destroy p = elim p.sem [
  | none ↦ []
  | some s ↦ if len p.name == 0 then delete ∷ sem_destroy ∷ [] else sem_close ∷ sem_unlink ∷ []
]
