-- ===== src/Sem/Counting.antt =====
-- Semaphores that count, to show that what `Api` says of the C library's can hold.
use rfdts.Base.{
  ℕ, zero, suc, ◌+◌, ◌-◌, ◌^◌, ◌≤◌, ◌<◌, ◌≡◌, refl, arith, ltb, leb, if◌then◌else◌, lt→ltb,
  not-lt→ltb, eagain, etimedout, einval, other,
}
use rfdts.Sem.Api.{SemApi, Reply, done, refused, waits, Timespec, billion}

abbrev most : ℕ
most = 2 ^ 31 - 1

abbrev init_count : ℕ → ℕ → Reply ℕ
init_count pshared v = if leb v most then done v else refused einval

abbrev post_count : ℕ → Reply ℕ
post_count s = if ltb s most then done (s + 1) else refused (other 75)

abbrev take_count : Reply ℕ → ℕ → Reply ℕ
take_count otherwise zero = otherwise
take_count otherwise (suc s) = done s

abbrev time_over : Timespec → Reply ℕ
time_over t = if ltb t.tv_nsec billion then refused etimedout else refused einval

pub init_count_lem : (v : ℕ) → v ≤ most → (s : ℕ) × (init_count 0 v ≡ done s) × (s ≡ v)
init_count_lem v h = (v, ground arith, refl)

pub post_count_lem : (s : ℕ) → s < most → (t : ℕ) × (post_count s ≡ done t) × (t ≡ s + 1)
post_count_lem s h = (s + 1, rw (lt→ltb s most h) refl, refl)

pub take_count_lem :
    (r : Reply ℕ) (s : ℕ) → 0 < s → (t : ℕ) × (take_count r s ≡ done t) × (t + 1 ≡ s)
take_count_lem r zero h = elim h [ ]
take_count_lem r (suc s) h = (s, refl, omega arith)

pub take_count_zero : (r : Reply ℕ) (s : ℕ) → s ≡ 0 → take_count r s ≡ r
take_count_zero r s e = rw e refl

pub time_over_lem :
    (t : Timespec) (s : ℕ)
    → s ≡ 0
    → t.tv_nsec < billion
    → take_count (time_over t) s ≡ refused etimedout
time_over_lem t s e h = rw (e, lt→ltb t.tv_nsec billion h) refl

pub time_invalid_lem :
    (t : Timespec) (s : ℕ)
    → s ≡ 0
    → billion ≤ t.tv_nsec
    → take_count (time_over t) s ≡ refused einval
time_invalid_lem t s e h = rw (e, not-lt→ltb t.tv_nsec billion h) refl

abbrev pub counting : SemApi
counting = record {
  S = ℕ;
  value = λ s. s;
  value_max = most;
  sem_init = init_count;
  sem_open = λ name oflag mode v. init_count 0 v;
  sem_post = post_count;
  sem_wait = take_count waits;
  sem_trywait = take_count (refused eagain);
  sem_timedwait = λ t. take_count (time_over t);
  sem_getvalue = λ s. s;
  init_lem = init_count_lem;
  post_lem = post_count_lem;
  wait_lem = take_count_lem waits;
  wait_zero = take_count_zero waits;
  trywait_lem = take_count_lem (refused eagain);
  trywait_zero = take_count_zero (refused eagain);
  timedwait_lem = λ t. take_count_lem (time_over t);
  timedwait_zero = time_over_lem;
  timedwait_invalid = time_invalid_lem;
  getvalue_lem = λ s. refl;
}
