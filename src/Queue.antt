-- ===== src/Queue.antt =====
-- `queue<T>` of src/queue.hpp, where `T` is a pointer to an `A`. The server's build (RFTS_SPMC) has
-- several readers and a flag for each slot; the other has one reader.
pub mod Repr
pub mod Law
pub mod Life
mod Tests
use rfdts.Base.{
  ℕ, zero, suc, ◌+◌, ◌*◌, Bool, true, false, Option, none, some, Outcome, ok, blocked, exited,
  errno, einval, ◌>>=◌, ◌==◌, if◌then◌else◌, Array, null, allocate, load, store,
}
use rfdts.Base.Words.{u64}
use rfdts.Ring.{Ring, step32, put_slot, take_slot}
use rfdts.Sem
use rfdts.Sem.Api.{SemApi}
use rfdts.Sem.{PosixSem, Effect}

pub data Build : Type 0 where
  spsc spmc : Build

-- `rq_flags` is null in the build without flags.
pub record Queue (S : Type 0) (A : Type 0) : Type 0 where
  pub rqnum : ℕ
  pub rq : Ring (Option A)
  pub rq_flags : Array Bool
  pub count : PosixSem S

-- The loop of the constructor: it clears slot and flag, `rounds` times from index `i` on.
unfoldable pub clear_from :
    {A : Type 0}
    → Build
    → ℕ
    → ℕ
    → Array (Option A)
    → Array Bool
    → Outcome (Array (Option A) × Array Bool)
clear_from build zero i rq flags = ok (rq, flags)
clear_from spsc (suc rounds) i rq flags = do
  rq ← store rq i none
  clear_from spsc rounds (i + 1) rq flags
clear_from spmc (suc rounds) i rq flags = do
  rq ← store rq i none
  flags ← store flags i false
  clear_from spmc rounds (i + 1) rq flags

abbrev pub initial_flags : Build → ℕ → ℕ → Array Bool
initial_flags spsc base rqnum = null
initial_flags spmc base rqnum = allocate base rqnum false

-- `flags[i] = true` in the build that has flags.
abbrev pub raise_flag : Build → Array Bool → ℕ → Outcome (Array Bool)
raise_flag spsc flags i = ok flags
raise_flag spmc flags i = store flags i true

-- The compare-exchange loop of `get`: alone it ends at once or never.
abbrev pub lower_flag : Build → Array Bool → ℕ → Outcome (Array Bool)
lower_flag spsc flags i = ok flags
lower_flag spmc flags i = do flag ← load flags i; if flag then store flags i false else blocked

module _ (api : SemApi) {A : Type 0} where
  open api use {S}

  -- `rqnum` is the capacity computed from the transmission parameters.
  unfoldable pub construct : Build → ℕ → ℕ → ℕ → Outcome (Queue S A)
  construct build rqnum rq_base flags_base = do
    count ← Sem.unnamed api 0 0
    if rqnum == 0 then exited (errno einval) else do
      (slots, flags) ←
          clear_from build rqnum 0 (allocate rq_base rqnum none)
            (initial_flags build flags_base rqnum)
      ok (record {
        rqnum = rqnum;
        rq = record { slots = slots; front = 0; rear = 0 };
        rq_flags = flags;
        count = count;
      })

  -- No test for a full ring.
  unfoldable pub put : Build → Queue S A → Option A → Outcome (Queue S A)
  put build p e = do
    rq ← put_slot (step32 p.rqnum) p.rq e
    rq_flags ← raise_flag build p.rq_flags p.rq.rear
    count ← Sem.post api p.count
    ok (record p { rq = rq; rq_flags = rq_flags; count = count })

  unfoldable pub get : Build → Queue S A → Outcome (Option A × Queue S A)
  get build p = do
    count ← Sem.wait api p.count
    rq_flags ← lower_flag build p.rq_flags p.rq.front
    (temp, rq) ← take_slot none (step32 p.rqnum) p.rq
    ok (temp, record p { rq = rq; rq_flags = rq_flags; count = count })

  -- The move constructor: the new queue has a semaphore of its own, started at the old one's value.
  unfoldable pub move : Queue S A → Outcome (Queue S A × Queue S A)
  move ref = do
    n ← Sem.getvalue api ref.count
    count ← Sem.unnamed api 0 n
    ok (
      record ref { count = count },
      record ref { rq = record (ref.rq) { slots = null }; rq_flags = null },
    )

  -- The destructor waits until the queue is empty.
  unfoldable pub destroy : Queue S A → Outcome (Queue S A)
  destroy p = if p.rq.slots.base == 0 then ok p else do
    n ← Sem.getvalue api p.count
    if n == 0
        then ok (record p { rq = record (p.rq) { slots = null }; rq_flags = null })
        else blocked

  unfoldable pub get_rq_elenum : Queue S A → Outcome ℕ
  get_rq_elenum p = Sem.getvalue api p.count

unfoldable pub get_rq_addr : {S A : Type 0} → Queue S A → ℕ
get_rq_addr p = p.rq.slots.base

unfoldable pub get_rq_length : {S A : Type 0} → ℕ → Queue S A → ℕ
get_rq_length size p = u64 (size * p.rqnum)

unfoldable pub get_flags_addr : {S A : Type 0} → Queue S A → ℕ
get_flags_addr p = p.rq_flags.base

unfoldable pub get_flags_length : {S A : Type 0} → ℕ → Queue S A → ℕ
get_flags_length size p = u64 (size * p.rqnum)
