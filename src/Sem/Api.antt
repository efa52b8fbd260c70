-- ===== src/Sem/Api.antt =====
-- The semaphores of the C library, as src/sem.hpp uses them: a parameter, with what its manual
-- says of a call that no other thread runs beside.
use Prim.Native.String.{String}
use rfdts.Base.{ℕ, ◌+◌, ◌≤◌, ◌<◌, ◌≡◌, Errno, eagain, etimedout, einval}

-- What a call of the C library does: it succeeds, fails with an error, or waits for another thread.
pub data Reply (S : Type 0) : Type 0 where
  done : S → Reply S
  refused : Errno → Reply S
  waits : Reply S

pub record Timespec : Type 0 where
  pub tv_sec : ℕ
  pub tv_nsec : ℕ

abbrev pub billion : ℕ
billion = 1_000_000_000

pub record SemApi : Type 1 where
  pub S : Type 0
  pub value : S → ℕ
  pub value_max : ℕ
  pub sem_init : ℕ → ℕ → Reply S
  pub sem_open : String → ℕ → ℕ → ℕ → Reply S
  pub sem_post : S → Reply S
  pub sem_wait : S → Reply S
  pub sem_trywait : S → Reply S
  pub sem_timedwait : Timespec → S → Reply S
  pub sem_getvalue : S → ℕ
  -- A private semaphore starts at the value given.
  pub init_lem : (v : ℕ) → v ≤ value_max → (s : S) × (sem_init 0 v ≡ done s) × (value s ≡ v)
  -- A post adds one, up to SEM_VALUE_MAX.
  pub post_lem :
      (s : S) → value s < value_max → (t : S) × (sem_post s ≡ done t) × (value t ≡ value s + 1)
  -- A wait takes one off, and at 0 waits.
  pub wait_lem : (s : S) → 0 < value s → (t : S) × (sem_wait s ≡ done t) × (value t + 1 ≡ value s)
  pub wait_zero : (s : S) → value s ≡ 0 → sem_wait s ≡ waits
  pub trywait_lem :
      (s : S) → 0 < value s → (t : S) × (sem_trywait s ≡ done t) × (value t + 1 ≡ value s)
  pub trywait_zero : (s : S) → value s ≡ 0 → sem_trywait s ≡ refused eagain
  -- A timed wait that can succeed at once does, whatever the time given.
  pub timedwait_lem :
      (t : Timespec) (s : S)
      → 0 < value s
      → (u : S) × (sem_timedwait t s ≡ done u) × (value u + 1 ≡ value s)
  pub timedwait_zero :
      (t : Timespec) (s : S)
      → value s ≡ 0
      → t.tv_nsec < billion
      → sem_timedwait t s ≡ refused etimedout
  -- One that would wait until a time that is none fails.
  pub timedwait_invalid :
      (t : Timespec) (s : S)
      → value s ≡ 0
      → billion ≤ t.tv_nsec
      → sem_timedwait t s ≡ refused einval
  pub getvalue_lem : (s : S) → sem_getvalue s ≡ value s
