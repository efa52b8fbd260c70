-- ===== src/MemPool/MpscAtomic.antt =====
-- `mpsc_atomic_mem_pool` of src/mem_pool.hpp: several writers, and a flag for each slot. The ring
-- and the flags are allocated with one slot less than the positions run through.
pub mod Bounds
pub mod Getters
pub mod Sizes
mod Tests
use rfdts.Base.{
  ℕ, zero, suc, ◌+◌, ◌-◌, ◌^◌, Bool, true, false, Option, none, some, Outcome, ok, blocked, ◌>>=◌,
  ltb, ◌==◌, if◌then◌else◌, Array, null, allocate, store,
}
use rfdts.Base.Words.{u32}
use rfdts.Ring.{Ring, step32, step64, put_slot, take_slot, claim_flag}
use rfdts.Buffers.{Bases, Buffers, initial_buffers, prepare, stamp}
use rfdts.Sem.Api.{Timespec}
use rfdts.MemPool.Waiting.{await, try_await, time_await}

pub record MpscAtomicMemPool : Type 0 where
  pub buffers : Buffers
  pub open buffers use *
  pub rqnum : ℕ
  pub ringqueue : Ring (Option ℕ)
  pub rq_flag : Array Bool

unfoldable pub members : ℕ → ℕ → Bases → MpscAtomicMemPool
unfolding initial_buffers
members elesize elenum bases = record {
  buffers = initial_buffers elesize elenum bases;
  rqnum = u32 (elenum + 1);
  ringqueue = record { slots = allocate bases.rq_base elenum none; front = 0; rear = 0 };
  rq_flag = allocate bases.flags_base elenum false;
}

-- The loop body of the constructors.
unfoldable pub fill : MpscAtomicMemPool → ℕ → Outcome MpscAtomicMemPool
fill p i = do
  buffers ← prepare (λ o. o) p.buffers i
  slots ← store p.ringqueue.slots i (some i)
  rq_flag ← store p.rq_flag i true
  let rear = step32 p.rqnum p.ringqueue.rear
  ok (record p {
    buffers = buffers;
    ringqueue = record { slots = slots; front = p.ringqueue.front; rear = rear };
    rq_flag = rq_flag;
  })

unfoldable pub fill_from : ℕ → ℕ → MpscAtomicMemPool → Outcome MpscAtomicMemPool
fill_from zero i p = ok p
fill_from (suc rounds) i p = do p ← fill p i; fill_from rounds (i + 1) p

unfoldable pub construct : ℕ → ℕ → Bases → Outcome MpscAtomicMemPool
construct elesize elenum bases = fill_from elenum 0 (members elesize elenum bases)

-- After the wait: the slot is read and cleared, its flag lowered, the work request stamped.
unfoldable pub take_after :
    Outcome (Unit {0}) → (ℕ → ℕ) → MpscAtomicMemPool → Outcome (Option ℕ × MpscAtomicMemPool)
take_after waited step p = do
  _ ← waited
  (temp, ringqueue) ← take_slot none step p.ringqueue
  rq_flag ← store p.rq_flag p.ringqueue.front false
  buffers ← stamp p.buffers temp
  ok (temp, record p { buffers = buffers; ringqueue = ringqueue; rq_flag = rq_flag })

unfoldable pub get : (ℕ → ℕ) → ℕ → MpscAtomicMemPool → Outcome (Option ℕ × MpscAtomicMemPool)
unfolding take_after
get rears fuel p = take_after (await fuel rears 0 p.ringqueue.front) (step32 p.rqnum) p

-- The loop has an empty body: it makes its hundred tests on the first load of `rear`.
unfoldable pub tryget : (ℕ → ℕ) → MpscAtomicMemPool → Outcome (Option ℕ × MpscAtomicMemPool)
unfolding take_after
tryget rears p = take_after (try_await (λ k. rears 0) p.ringqueue.front) (step32 p.rqnum) p

unfoldable pub timeget :
    Timespec
    → (ℕ → Timespec)
    → (ℕ → ℕ)
    → ℕ
    → MpscAtomicMemPool
    → Outcome (Option ℕ × MpscAtomicMemPool)
unfolding take_after
timeget old clock rears fuel p =
    take_after (time_await fuel old clock rears 0 p.ringqueue.front) (step64 p.rqnum) p

unfoldable pub put : MpscAtomicMemPool → Option ℕ → Outcome MpscAtomicMemPool
put p e = do
  rq_flag ← claim_flag p.rq_flag p.ringqueue.rear
  ringqueue ← put_slot (step64 p.rqnum) p.ringqueue e
  ok (record p { ringqueue = ringqueue; rq_flag = rq_flag })

-- A pool whose blocks are gone: moved from, or destroyed.
abbrev pub emptied : MpscAtomicMemPool → MpscAtomicMemPool
emptied p = record p {
  buffers = record (p.buffers) { addr = 0; wrs = null; sg_lists = null };
  ringqueue = record (p.ringqueue) { slots = null };
  rq_flag = null;
}

unfoldable pub move : MpscAtomicMemPool → MpscAtomicMemPool × MpscAtomicMemPool
move ref = (ref, emptied ref)

unfoldable pub free_num : MpscAtomicMemPool → ℕ
free_num p =
    let num = u32 (p.ringqueue.rear + (2 ^ 32 - p.ringqueue.front)) in
    if ltb num (2 ^ 31) then num else u32 (num + p.rqnum)

-- An int32_t, given as its bit pattern, cast to uint64_t.
abbrev pub sign_extended : ℕ → ℕ
sign_extended n = if ltb n (2 ^ 31) then n else n + (2 ^ 64 - 2 ^ 32)

unfoldable pub destroy : MpscAtomicMemPool → Outcome MpscAtomicMemPool
destroy p =
    if p.addr == 0
    then ok p
    else if sign_extended (free_num p) == p.elenum
    then ok (emptied p)
    else blocked
