-- ===== src/MemPool/SpscSem.antt =====
-- `spsc_sem_mem_pool` of src/mem_pool.hpp: one reader, one writer, a semaphore that counts the free
-- work requests.
pub mod Repr
pub mod Life
pub mod Use
pub mod Getters
mod Tests
use rfdts.Base.{
  ℕ, zero, suc, ◌+◌, ◌*◌, Option, none, some, Outcome, ok, blocked, exited, failure, eagain,
  etimedout, ◌>>=◌, ◌==◌, if◌then◌else◌, null, allocate, store, Array, Errno,
}
use rfdts.Base.Words.{u64}
use rfdts.Ring.{Ring, step32, put_slot, take_slot, read_slot}
use rfdts.Buffers.{Bases, Buffers, Opcode, ibv_wr_send, initial_buffers, prepare, stamp}
use rfdts.Sem
use rfdts.Sem.Api.{SemApi, Timespec}
use rfdts.Sem.{PosixSem}
use rfdts.MemPool.Waiting.{get_try_num, get_wait_time}

pub record SpscSemMemPool (S : Type 0) : Type 0 where
  pub buffers : Buffers
  pub open buffers use *
  pub ringqueue : Ring (Option ℕ)
  pub count : PosixSem S

abbrev pub set_send : Opcode → Opcode
set_send o = ibv_wr_send

module _ (api : SemApi) where
  open api use {S}

  -- The loop of `tryget` and its test afterwards: `tries` more attempts, then the program ends.
  unfoldable pub try_wait : ℕ → PosixSem S → Outcome (PosixSem S)
  try_wait zero count = exited failure
  try_wait (suc tries) count = do
    (told, count) ← Sem.trywait api count
    elim told [ none ↦ ok count | some e ↦ try_wait tries count ]

  -- The wait of `timeget` at the time `now`. The nanoseconds are not carried into the seconds.
  unfoldable pub time_wait : Timespec → PosixSem S → Outcome (PosixSem S)
  time_wait now count = do
    (told, count) ← Sem.timewait api (record now { tv_nsec = now.tv_nsec + get_wait_time }) count
    elim told [ none ↦ ok count | some e ↦ exited failure ]

  unfoldable pub members : ℕ → ℕ → Bases → Outcome (SpscSemMemPool S)
  unfolding initial_buffers
  members elesize elenum bases = do
    count ← Sem.unnamed api 0 0
    ok (record {
      buffers = initial_buffers elesize elenum bases;
      ringqueue = record { slots = allocate bases.rq_base elenum none; front = 0; rear = 0 };
      count = count;
    })

  -- The loop body of the constructors.
  unfoldable pub fill : SpscSemMemPool S → ℕ → Outcome (SpscSemMemPool S)
  fill p i = do
    buffers ← prepare set_send p.buffers i
    slots ← store p.ringqueue.slots i (some i)
    count ← Sem.post api p.count
    let rear = step32 p.elenum p.ringqueue.rear
    ok (record {
      buffers = buffers;
      ringqueue = record { slots = slots; front = p.ringqueue.front; rear = rear };
      count = count;
    })

  unfoldable pub fill_from : ℕ → ℕ → SpscSemMemPool S → Outcome (SpscSemMemPool S)
  fill_from zero i p = ok p
  fill_from (suc rounds) i p = do p ← fill p i; fill_from rounds (i + 1) p

  unfoldable pub construct : ℕ → ℕ → Bases → Outcome (SpscSemMemPool S)
  construct elesize elenum bases = members elesize elenum bases >>= fill_from elenum 0

  -- `get`: it waits, clears the slot, and stamps the work request.
  unfoldable pub get : SpscSemMemPool S → Outcome (Option ℕ × SpscSemMemPool S)
  get p = do
    count ← Sem.wait api p.count
    (temp, ringqueue) ← take_slot none (step32 p.elenum) p.ringqueue
    buffers ← stamp p.buffers temp
    ok (temp, record { buffers = buffers; ringqueue = ringqueue; count = count })

  -- `tryget` and `timeget` leave the pointer in its slot.
  unfoldable pub read_after :
      Outcome (PosixSem S) → SpscSemMemPool S → Outcome (Option ℕ × SpscSemMemPool S)
  read_after acquired p = do
    count ← acquired
    (temp, ringqueue) ← read_slot (step32 p.elenum) p.ringqueue
    buffers ← stamp p.buffers temp
    ok (temp, record { buffers = buffers; ringqueue = ringqueue; count = count })

  unfoldable pub tryget : SpscSemMemPool S → Outcome (Option ℕ × SpscSemMemPool S)
  unfolding read_after
  tryget p = read_after (try_wait get_try_num p.count) p

  unfoldable pub timeget : Timespec → SpscSemMemPool S → Outcome (Option ℕ × SpscSemMemPool S)
  unfolding read_after
  timeget now p = read_after (time_wait now p.count) p

  unfoldable pub put : SpscSemMemPool S → Option ℕ → Outcome (SpscSemMemPool S)
  put p e = do
    ringqueue ← put_slot (step32 p.elenum) p.ringqueue e
    count ← Sem.post api p.count
    ok (record p { ringqueue = ringqueue; count = count })

  -- A pool whose blocks are gone: moved from, or destroyed.
  abbrev pub emptied : SpscSemMemPool S → SpscSemMemPool S
  emptied p = record p {
    buffers = record (p.buffers) { addr = 0; wrs = null; sg_lists = null };
    ringqueue = record (p.ringqueue) { slots = null };
  }

  unfoldable pub move : SpscSemMemPool S → Outcome (SpscSemMemPool S × SpscSemMemPool S)
  move ref = do
    n ← Sem.getvalue api ref.count
    count ← Sem.unnamed api 0 n
    ok (record ref { count = count }, emptied ref)

  unfoldable pub destroy : SpscSemMemPool S → Outcome (SpscSemMemPool S)
  destroy p =
      if p.addr == 0
      then ok p
      else do n ← Sem.getvalue api p.count; if n == p.elenum then ok (emptied p) else blocked
