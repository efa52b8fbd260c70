-- ===== src/MemPool/Waiting.antt =====
-- The waiting loops of the two atomic pools of src/mem_pool.hpp. A reader sees the other threads
-- only through its loads of `rear` and of the clock: `rears k` is what the load number `k` gives.
pub mod Bounds
use rfdts.Base.{
  ℕ, zero, suc, ◌+◌, ◌*◌, Bool, Outcome, ok, blocked, exited, failure, ltb, leb, ◌==◌,
  if◌then◌else◌,
}
use rfdts.Sem.Api.{Timespec, billion}

-- GET_TRY_NUM and GET_WAIT_TIME (nanoseconds).
abbrev pub get_try_num : ℕ
get_try_num = 100

abbrev pub get_wait_time : ℕ
get_wait_time = 1000

-- `while (front == rear) rear = __rear.load();` for at most `fuel` tests, the next on load `k`.
unfoldable pub await : ℕ → (ℕ → ℕ) → ℕ → ℕ → Outcome (Unit {0})
await zero rears k front = blocked
await (suc fuel) rears k front =
    let rest = await fuel rears (k + 1) front in if front == rears k then rest else ok tt

-- The final `i` of `for (i = 0; i < tries && front == rear; ++i) rear = __rear.load();`.
unfoldable pub spins : ℕ → (ℕ → ℕ) → ℕ → ℕ → ℕ
spins zero rears k front = 0
spins (suc tries) rears k front =
    let rest = spins tries rears (k + 1) front in if front == rears k then suc rest else 0

-- The loop of `tryget` and its test afterwards.
unfoldable pub try_await : (ℕ → ℕ) → ℕ → Outcome (Unit {0})
try_await rears front =
    if leb get_try_num (spins get_try_num rears 0 front) then exited failure else ok tt

-- More than GET_WAIT_TIME from the first time to the second.
abbrev pub time_over : Timespec → Timespec → Bool
time_over old new =
    ltb (old.tv_sec * billion + old.tv_nsec + get_wait_time) (new.tv_sec * billion + new.tv_nsec)

-- The loop of `timeget`, begun at the time `old`; `clock k` is read in round `k`.
unfoldable pub time_await : ℕ → Timespec → (ℕ → Timespec) → (ℕ → ℕ) → ℕ → ℕ → Outcome (Unit {0})
time_await zero old clock rears k front = blocked
time_await (suc fuel) old clock rears k front =
    let rest = time_await fuel old clock rears (k + 1) front in
    if front == rears k then (if time_over old (clock k) then exited failure else rest) else ok tt
