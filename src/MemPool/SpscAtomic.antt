-- ===== src/MemPool/SpscAtomic.antt =====
-- `spsc_atomic_mem_pool` of src/mem_pool.hpp: one reader and one writer, who see each other's
-- progress by loads of `rear` and `front`.
pub mod Repr
pub mod Life
pub mod Use
pub mod Threads
pub mod Getters
mod Tests
use rfdts.Base.{
  ℕ, zero, suc, ◌+◌, ◌-◌, ◌^◌, Option, none, some, Outcome, ok, blocked, ◌>>=◌, ltb, ◌==◌,
  if◌then◌else◌, null, allocate, store,
}
use rfdts.Base.Words.{u32}
use rfdts.Ring.{Ring, step32, step64, put_slot, take_slot}
use rfdts.Buffers.{Bases, Buffers, Opcode, ibv_wr_send, initial_buffers, prepare, stamp}
use rfdts.Sem.Api.{Timespec}
use rfdts.MemPool.Waiting.{await, try_await, time_await}

pub record SpscAtomicMemPool : Type 0 where
  pub buffers : Buffers
  pub open buffers use *
  pub rqnum : ℕ
  pub ringqueue : Ring (Option ℕ)

unfoldable pub members : ℕ → ℕ → Bases → SpscAtomicMemPool
unfolding initial_buffers
members elesize elenum bases =
    let rqnum = u32 (elenum + 1) in
    record {
      buffers = initial_buffers elesize elenum bases;
      rqnum = rqnum;
      ringqueue = record { slots = allocate bases.rq_base rqnum none; front = 0; rear = 0 };
    }

abbrev pub set_send : Opcode → Opcode
set_send o = ibv_wr_send

-- The loop body of the constructors.
unfoldable pub fill : SpscAtomicMemPool → ℕ → Outcome SpscAtomicMemPool
fill p i = do
  buffers ← prepare set_send p.buffers i
  slots ← store p.ringqueue.slots i (some i)
  let rear = step32 p.rqnum p.ringqueue.rear
  ok (record p {
    buffers = buffers;
    ringqueue = record { slots = slots; front = p.ringqueue.front; rear = rear };
  })

unfoldable pub fill_from : ℕ → ℕ → SpscAtomicMemPool → Outcome SpscAtomicMemPool
fill_from zero i p = ok p
fill_from (suc rounds) i p = do p ← fill p i; fill_from rounds (i + 1) p

unfoldable pub construct : ℕ → ℕ → Bases → Outcome SpscAtomicMemPool
construct elesize elenum bases = fill_from elenum 0 (members elesize elenum bases)

-- After the wait: the slot is read and cleared, `front` is published, the work request stamped.
unfoldable pub take_after :
    Outcome (Unit {0}) → (ℕ → ℕ) → SpscAtomicMemPool → Outcome (Option ℕ × SpscAtomicMemPool)
take_after waited step p = do
  _ ← waited
  (temp, ringqueue) ← take_slot none step p.ringqueue
  buffers ← stamp p.buffers temp
  ok (temp, record p { buffers = buffers; ringqueue = ringqueue })

-- `rears` are the loads of `rear`, and `fuel` bounds how many of them are made.
unfoldable pub get : (ℕ → ℕ) → ℕ → SpscAtomicMemPool → Outcome (Option ℕ × SpscAtomicMemPool)
unfolding take_after
get rears fuel p = take_after (await fuel rears 0 p.ringqueue.front) (step32 p.rqnum) p

unfoldable pub tryget : (ℕ → ℕ) → SpscAtomicMemPool → Outcome (Option ℕ × SpscAtomicMemPool)
unfolding take_after
tryget rears p = take_after (try_await rears p.ringqueue.front) (step32 p.rqnum) p

unfoldable pub timeget :
    Timespec
    → (ℕ → Timespec)
    → (ℕ → ℕ)
    → ℕ
    → SpscAtomicMemPool
    → Outcome (Option ℕ × SpscAtomicMemPool)
unfolding take_after
timeget old clock rears fuel p =
    take_after (time_await fuel old clock rears 0 p.ringqueue.front) (step64 p.rqnum) p

unfoldable pub put : SpscAtomicMemPool → Option ℕ → Outcome SpscAtomicMemPool
put p e = do
  ringqueue ← put_slot (step64 p.rqnum) p.ringqueue e
  ok (record p { ringqueue = ringqueue })

-- A pool whose blocks are gone: moved from, or destroyed.
abbrev pub emptied : SpscAtomicMemPool → SpscAtomicMemPool
emptied p = record p {
  buffers = record (p.buffers) { addr = 0; wrs = null; sg_lists = null };
  ringqueue = record (p.ringqueue) { slots = null };
}

unfoldable pub move : SpscAtomicMemPool → SpscAtomicMemPool × SpscAtomicMemPool
move ref = (ref, emptied ref)

-- `num` of the destructor's loop, an int32_t as its bit pattern.
unfoldable pub free_num : SpscAtomicMemPool → ℕ
free_num p =
    let num = u32 (p.ringqueue.rear + (2 ^ 32 - p.ringqueue.front)) in
    if ltb num (2 ^ 31) then num else u32 (num + p.rqnum)

unfoldable pub destroy : SpscAtomicMemPool → Outcome SpscAtomicMemPool
destroy p = if p.addr == 0 then ok p else if free_num p == p.elenum then ok (emptied p) else blocked
