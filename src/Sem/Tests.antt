-- ===== src/Sem/Tests.antt =====
-- The semaphores of src/sem.hpp on concrete inputs.
use rfdts.Base.{ℕ, ◌≡◌, refl, Bool, true, some, exited, errno, einval}
use rfdts.Sem.{PosixSem, destroy, timewait}
use rfdts.Sem.Api.{Timespec}
use rfdts.Sem.Calls.{uses_freed, destroy-uses_freed, timewait_zero}
use rfdts.Sem.Counting.{counting}

abbrev empty : PosixSem ℕ
empty = record { sem = some 0; name = "" }

destroy-uses_freed_example : uses_freed Bool.false (destroy empty) ≡ true
destroy-uses_freed_example = destroy-uses_freed 0 empty refl

abbrev late : Timespec
late = record { tv_sec = 5; tv_nsec = 1_000_000_500 }

timewait_zero_example : timewait counting late empty ≡ exited (errno einval)
timewait_zero_example =
    timewait_zero counting late empty (record { handle = 0; live = refl; value_eq = refl })
