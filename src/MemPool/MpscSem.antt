-- ===== src/MemPool/MpscSem.antt =====
-- `mpsc_sem_mem_pool` of src/mem_pool.hpp: one reader, several writers that claim a slot by its
-- flag, and a semaphore that counts the free work requests.
pub mod Repr
pub mod Life
pub mod Use
pub mod Getters
mod Tests
use rfdts.Base.{
  ℕ, zero, suc, ◌+◌, Bool, true, false, Option, none, some, Outcome, ok, blocked, ◌>>=◌, ◌==◌,
  if◌then◌else◌, Array, null, allocate, store,
}
use rfdts.Ring.{Ring, step32, step64, put_slot, take_slot, claim_flag}
use rfdts.Buffers.{Bases, Buffers, initial_buffers, prepare, stamp}
use rfdts.Sem
use rfdts.Sem.Api.{SemApi, Timespec}
use rfdts.Sem.{PosixSem}
use rfdts.MemPool.Waiting.{get_try_num}
use rfdts.MemPool.SpscSem.{try_wait, time_wait}

pub record MpscSemMemPool (S : Type 0) : Type 0 where
  pub buffers : Buffers
  pub open buffers use *
  pub ringqueue : Ring (Option ℕ)
  pub rq_flag : Array Bool
  pub count : PosixSem S

module _ (api : SemApi) where
  open api use {S}

  unfoldable pub members : ℕ → ℕ → Bases → Outcome (MpscSemMemPool S)
  unfolding initial_buffers
  members elesize elenum bases = do
    count ← Sem.unnamed api 0 0
    ok (record {
      buffers = initial_buffers elesize elenum bases;
      ringqueue = record { slots = allocate bases.rq_base elenum none; front = 0; rear = 0 };
      rq_flag = allocate bases.flags_base elenum false;
      count = count;
    })

  -- The loop body of the constructors.
  unfoldable pub fill : MpscSemMemPool S → ℕ → Outcome (MpscSemMemPool S)
  fill p i = do
    buffers ← prepare (λ o. o) p.buffers i
    slots ← store p.ringqueue.slots i (some i)
    let rear = step32 p.elenum p.ringqueue.rear
    rq_flag ← store p.rq_flag i true
    count ← Sem.post api p.count
    ok (record {
      buffers = buffers;
      ringqueue = record { slots = slots; front = p.ringqueue.front; rear = rear };
      rq_flag = rq_flag;
      count = count;
    })

  unfoldable pub fill_from : ℕ → ℕ → MpscSemMemPool S → Outcome (MpscSemMemPool S)
  fill_from zero i p = ok p
  fill_from (suc rounds) i p = do p ← fill p i; fill_from rounds (i + 1) p

  unfoldable pub construct : ℕ → ℕ → Bases → Outcome (MpscSemMemPool S)
  construct elesize elenum bases = members elesize elenum bases >>= fill_from elenum 0

  -- With one taken off the count: the slot is read and cleared, its flag lowered, the work request
  -- stamped.
  unfoldable pub take_after :
      Outcome (PosixSem S) → MpscSemMemPool S → Outcome (Option ℕ × MpscSemMemPool S)
  take_after acquired p = do
    count ← acquired
    (temp, ringqueue) ← take_slot none (step32 p.elenum) p.ringqueue
    rq_flag ← store p.rq_flag p.ringqueue.front false
    buffers ← stamp p.buffers temp
    ok (temp, record { buffers = buffers; ringqueue = ringqueue; rq_flag = rq_flag; count = count })

  unfoldable pub get : MpscSemMemPool S → Outcome (Option ℕ × MpscSemMemPool S)
  unfolding take_after
  get p = take_after (Sem.wait api p.count) p

  unfoldable pub tryget : MpscSemMemPool S → Outcome (Option ℕ × MpscSemMemPool S)
  unfolding take_after
  tryget p = take_after (try_wait api get_try_num p.count) p

  unfoldable pub timeget : Timespec → MpscSemMemPool S → Outcome (Option ℕ × MpscSemMemPool S)
  unfolding take_after
  timeget now p = take_after (time_wait api now p.count) p

  unfoldable pub put : MpscSemMemPool S → Option ℕ → Outcome (MpscSemMemPool S)
  put p e = do
    rq_flag ← claim_flag p.rq_flag p.ringqueue.rear
    ringqueue ← put_slot (step64 p.elenum) p.ringqueue e
    count ← Sem.post api p.count
    ok (record p { ringqueue = ringqueue; rq_flag = rq_flag; count = count })

  -- A pool whose blocks are gone: moved from, or destroyed.
  abbrev pub emptied : MpscSemMemPool S → MpscSemMemPool S
  emptied p = record p {
    buffers = record (p.buffers) { addr = 0; wrs = null; sg_lists = null };
    ringqueue = record (p.ringqueue) { slots = null };
    rq_flag = null;
  }

  unfoldable pub move : MpscSemMemPool S → Outcome (MpscSemMemPool S × MpscSemMemPool S)
  move ref = do
    n ← Sem.getvalue api ref.count
    count ← Sem.unnamed api 0 n
    ok (record ref { count = count }, emptied ref)

  unfoldable pub destroy : MpscSemMemPool S → Outcome (MpscSemMemPool S)
  destroy p =
      if p.addr == 0
      then ok p
      else do n ← Sem.getvalue api p.count; if n == p.elenum then ok (emptied p) else blocked
