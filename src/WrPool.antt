-- ===== src/WrPool.antt =====
-- `wr_pool<T>` of src/wr_pool.hpp, as that header builds it: it defines RFTS_SERVER itself, so
-- RFTS_MPSC is always set and the pool has one reader, many writers and a flag for each slot.
-- A call here runs alone; src/wr_pool.hpp under several writers is in `Race`.
pub mod Repr
pub mod Construct
pub mod Life
pub mod Use
pub mod Race
mod Tests
use rfdts.Base.{
  ℕ, zero, suc, ◌+◌, ◌-◌, ◌*◌, ◌^◌, Bool, true, false, ◌||◌, Option, none, some, Outcome, ok,
  blocked, exited, ◌>>=◌, einval, errno, ltb, ◌==◌, if◌then◌else◌, Array, null, allocate, load,
  store,
}
use rfdts.Base.Words.{u32, u64}
use rfdts.Ring.{Ring, step32, step64, put_slot, take_slot, claim_flag}
use rfdts.Buffers.{Bases, Buffers, initial_buffers, prepare, stamp}

pub record WrPool : Type 0 where
  pub buffers : Buffers
  pub open buffers use *
  pub rqnum : ℕ
  pub rq : Ring (Option ℕ)
  pub rq_flags : Array Bool

-- The member initialisers, from the results of `get_elesize` and `get_elenum`.
unfoldable pub members : ℕ → ℕ → Bases → WrPool
unfolding initial_buffers
members elesize elenum bases =
    let rqnum = u32 (elenum + 1) in
    record {
      buffers = initial_buffers elesize elenum bases;
      rqnum = rqnum;
      rq = record { slots = allocate bases.rq_base rqnum none; front = 0; rear = 0 };
      rq_flags = allocate bases.flags_base rqnum false;
    }

-- The loop body of the constructor.
unfoldable pub fill : WrPool → ℕ → Outcome WrPool
fill p i = do
  buffers ← prepare (λ o. o) p.buffers i
  rq ← put_slot (step32 p.rqnum) p.rq (some i)
  rq_flags ← store p.rq_flags i true
  ok (record p { buffers = buffers; rq = rq; rq_flags = rq_flags })

-- `rounds` more rounds of the loop, from index `i` on.
unfoldable pub fill_from : ℕ → ℕ → WrPool → Outcome WrPool
fill_from zero i p = ok p
fill_from (suc rounds) i p = do p ← fill p i; fill_from rounds (i + 1) p

unfoldable pub construct : ℕ → ℕ → Bases → Outcome WrPool
construct elesize elenum bases = if elenum == 0 || elesize == 0 then exited (errno einval) else do
  p ← fill_from elenum 0 (members elesize elenum bases)
  slots ← store p.rq.slots p.rq.rear none
  rq_flags ← store p.rq_flags p.rq.rear false
  ok (record p {
    rq = record { slots = slots; front = p.rq.front; rear = p.rq.rear };
    rq_flags = rq_flags;
  })

-- No test for an empty ring: then `temp` is `nullptr`, and stamping it faults.
unfoldable pub get : WrPool → Outcome (Option ℕ × WrPool)
get p = do
  (temp, rq) ← take_slot none (step32 p.rqnum) p.rq
  rq_flags ← store p.rq_flags p.rq.front false
  buffers ← stamp p.buffers temp
  ok (temp, record p { buffers = buffers; rq = rq; rq_flags = rq_flags })

unfoldable pub put : WrPool → Option ℕ → Outcome WrPool
put p e = do
  rq_flags ← claim_flag p.rq_flags p.rq.rear
  rq ← put_slot (step64 p.rqnum) p.rq e
  ok (record p { rq = rq; rq_flags = rq_flags })

-- The move constructor: the new pool, and what is left of the old one.
unfoldable pub move : WrPool → WrPool × WrPool
move ref = (
  ref,
  record ref {
    buffers = record (ref.buffers) { addr = 0; wrs = null; sg_lists = null };
    rq = record (ref.rq) { slots = null };
    rq_flags = null;
  },
)

-- `num` as the destructor's loop computes it, an int32_t as its bit pattern.
unfoldable pub free_num : WrPool → ℕ
free_num p =
    let num = u32 (p.rq.rear + (2 ^ 32 - p.rq.front)) in
    if ltb num (2 ^ 31) then num else u32 (num + p.rqnum)

unfoldable pub destroy : WrPool → Outcome WrPool
destroy p =
    if p.addr == 0
    then ok p
    else if free_num p == p.elenum
    then ok (record p {
      buffers = record (p.buffers) { addr = 0; wrs = null; sg_lists = null };
      rq = record (p.rq) { slots = null };
      rq_flags = null;
    })
    else blocked

-- The addresses and sizes that the caller registers; `size` is `sizeof` of an element.
unfoldable pub get_mrs_addr : WrPool → ℕ
get_mrs_addr p = p.addr

unfoldable pub get_mrs_length : WrPool → ℕ
get_mrs_length p = p.length

unfoldable pub get_wrs_addr : WrPool → ℕ
get_wrs_addr p = p.wrs.base

unfoldable pub get_wrs_length : ℕ → WrPool → ℕ
get_wrs_length size p = u64 (size * p.elenum)

unfoldable pub get_sgs_addr : WrPool → ℕ
get_sgs_addr p = p.sg_lists.base

unfoldable pub get_sgs_length : ℕ → WrPool → ℕ
get_sgs_length size p = u64 (size * p.elenum)

unfoldable pub get_flags_addr : WrPool → ℕ
get_flags_addr p = p.rq_flags.base

unfoldable pub get_flags_length : ℕ → WrPool → ℕ
get_flags_length size p = u64 (size * p.rqnum)

unfoldable pub get_rq_addr : WrPool → ℕ
get_rq_addr p = p.rq.slots.base

unfoldable pub get_rq_length : ℕ → WrPool → ℕ
get_rq_length size p = u64 (size * p.rqnum)
