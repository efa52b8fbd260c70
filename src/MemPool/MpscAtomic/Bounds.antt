-- ===== src/MemPool/MpscAtomic/Bounds.antt =====
-- The accesses of `mpsc_atomic_mem_pool` in src/mem_pool.hpp to its arrays.
use rfdts.Base.{bind_ok, ok_inj}
use rfdts.Base.{
  ℕ, zero, suc, ◌+◌, ◌^◌, ◌<◌, ◌≡◌, refl, ◌∙◌, ap, subst, true, false, Option, none, some, Outcome,
  ok, exited, failure, fault, arith, Array, length, length-set, length-replicate, store, store_lem,
  write, read_fault, get_elem?-none, put_cells, set,
}
use native.Mathlib.Numerals.{add-one}
use rfdts.Ring.{Ring, step32, step64, take_slot, claim_flag}
use rfdts.Ring.Position.{step32_lem}
use rfdts.Buffers.{Bases, initial_buffers}
use rfdts.Buffers.Layout.{Laid, initial-Laid, prepare-Laid}
use rfdts.Buffers.{stamp}
use rfdts.Sem.Api.{Timespec}
use rfdts.MemPool.Waiting.{await, try_await, time_await}
use rfdts.MemPool.Waiting.Bounds.{try_await_gives_up}
use rfdts.MemPool.MpscAtomic.{
  MpscAtomicMemPool, members, fill, fill_from, construct, take_after, get, tryget, timeget, put,
}

-- Ring and flags have `n` cells, and the writers' position is cell `n`.
pub record Overrun (n : ℕ) (p : MpscAtomicMemPool) : Type 0 where
  pub flags_size : length p.rq_flag.cells ≡ n
  pub rear_eq : p.ringqueue.rear ≡ n

store-length :
    {A : Type 0} (a : Array A) (i : ℕ) (v : A) {b : Array A}
    → store a i v ≡ ok b
    → length b.cells ≡ length a.cells
unfolding store write
store-length a i v e = ground (arith, length-set a.cells i v)

take_slot-rear :
    {A : Type 0} (nullptr : A) (step : ℕ → ℕ) (r : Ring A) {x : A} {r' : Ring A}
    → take_slot nullptr step r ≡ ok (x, r')
    → r'.rear ≡ r.rear
unfolding take_slot
take_slot-rear nullptr step r e = ground arith

take_after-Overrun :
    (n : ℕ) (waited : Outcome (Unit {0})) (step : ℕ → ℕ) (p p' : MpscAtomicMemPool) (x : Option ℕ)
    → Overrun n p
    → take_after waited step p ≡ ok (x, p')
    → Overrun n p'
unfolding take_after
take_after-Overrun n waited step p p' x o e =
    let (u, waited_ok, e1) = bind_ok waited _ e in
    let ((temp, r'), taken, e2) = bind_ok (take_slot none step p.ringqueue) _ e1 in
    let (f', lowered, e3) = bind_ok (store p.rq_flag p.ringqueue.front false) _ e2 in
    let (b, stamped, e4) = bind_ok (stamp p.buffers temp) _ e3 in
    let same : record p { buffers = b; ringqueue = r'; rq_flag = f' } ≡ p' =
      ap (λ z. z.1) (ok_inj e4) in
    subst (Overrun n) same (record {
      flags_size = store-length p.rq_flag p.ringqueue.front false lowered ∙ o.flags_size;
      rear_eq = take_slot-rear none step p.ringqueue taken ∙ o.rear_eq;
    })

-- The pool after `i` rounds of the constructor's loop.
pub record Filled (i n : ℕ) (p : MpscAtomicMemPool) : Type 0 where
  pub elenum_eq : p.elenum ≡ n
  pub rqnum_eq : p.rqnum ≡ n + 1
  pub small : n + 1 < 2 ^ 32
  pub slots_size : length p.ringqueue.slots.cells ≡ n
  pub flags_size : length p.rq_flag.cells ≡ n
  pub rear_eq : p.ringqueue.rear ≡ i
  pub laid : Laid i p.buffers

members-Filled :
    (elesize elenum : ℕ) (bases : Bases)
    → elenum + 1 < 2 ^ 32
    → Filled 0 elenum (members elesize elenum bases)
unfolding members initial_buffers
members-Filled elesize elenum bases w = record {
  elenum_eq = refl;
  rqnum_eq = ground arith;
  small = w;
  slots_size = length-replicate elenum none;
  flags_size = length-replicate elenum false;
  rear_eq = refl;
  laid = initial-Laid elesize elenum bases;
}

fill-Filled :
    (i n : ℕ) (p : MpscAtomicMemPool)
    → i < n
    → Filled i n p
    → (p' : MpscAtomicMemPool) × (fill p i ≡ ok p') × Filled (suc i) n p'
unfolding fill
fill-Filled i n p h f =
    let (b, prepared, shape, laid, id) =
      prepare-Laid (λ o. o) p.buffers i (omega (arith, f.elenum_eq)) f.laid in
    let step =
      step32_lem p.rqnum p.ringqueue.rear (omega (arith, f.rqnum_eq, f.rear_eq))
        (omega (arith, f.rqnum_eq, f.small)) in
    (
      record {
        buffers = b;
        rqnum = p.rqnum;
        ringqueue = record (p.ringqueue) {
          slots = put_cells p.ringqueue.slots (set p.ringqueue.slots.cells i (some i));
          rear = step32 p.rqnum p.ringqueue.rear;
        };
        rq_flag = put_cells p.rq_flag (set p.rq_flag.cells i true);
      },
      rw
          (
            prepared,
            store_lem p.ringqueue.slots i (some i) (omega (arith, f.slots_size)),
            store_lem p.rq_flag i true (omega (arith, f.flags_size)),
          )
          refl,
      record {
        elenum_eq = shape.elenum_eq ∙ f.elenum_eq;
        rqnum_eq = f.rqnum_eq;
        small = f.small;
        slots_size = length-set p.ringqueue.slots.cells i (some i) ∙ f.slots_size;
        flags_size = length-set p.rq_flag.cells i true ∙ f.flags_size;
        rear_eq = ground (arith, step, f.rqnum_eq, f.rear_eq);
        laid = laid;
      },
    )

fill_from-Filled :
    (rounds i n : ℕ) (p : MpscAtomicMemPool)
    → i + rounds ≡ n
    → Filled i n p
    → (p' : MpscAtomicMemPool) × (fill_from rounds i p ≡ ok p') × Filled n n p'
unfolding fill_from
fill_from-Filled zero i n p h f = (p, refl, subst (λ k. Filled k n p) (omega arith) f)
fill_from-Filled (suc rounds) i n p h f =
    let (p', filled, f') = fill-Filled i n p (omega arith) f in
    let (p'', finished, f'') = fill_from-Filled rounds (i + 1) n p' (omega arith) (rw add-one f') in
    (p'', rw filled finished, f'')

pub construct-Filled :
    (elesize elenum : ℕ) (bases : Bases)
    → elenum + 1 < 2 ^ 32
    → (p : MpscAtomicMemPool) × (construct elesize elenum bases ≡ ok p) × Filled elenum elenum p
unfolding construct
construct-Filled elesize elenum bases w =
    fill_from-Filled elenum 0 elenum (members elesize elenum bases) (omega arith)
      (members-Filled elesize elenum bases w)

-- The constructors return, and leave the writers' position past the end of both arrays.
pub construct-Overrun :
    (elesize elenum : ℕ) (bases : Bases)
    → elenum + 1 < 2 ^ 32
    → (p : MpscAtomicMemPool) × (construct elesize elenum bases ≡ ok p) × Overrun elenum p
construct-Overrun elesize elenum bases w =
    let (p, finished, f) = construct-Filled elesize elenum bases w in
    (p, finished, record { flags_size = f.flags_size; rear_eq = f.rear_eq })

-- Any number of calls that took a work request.
pub data Takes (p : MpscAtomicMemPool) : MpscAtomicMemPool → Type 0 where
  none_yet : Takes p p
  by_get :
      {q q' : MpscAtomicMemPool} {x : Option ℕ} (rears : ℕ → ℕ) (fuel : ℕ)
      → Takes p q
      → get rears fuel q ≡ ok (x, q')
      → Takes p q'
  by_tryget :
      {q q' : MpscAtomicMemPool} {x : Option ℕ} (rears : ℕ → ℕ)
      → Takes p q
      → tryget rears q ≡ ok (x, q')
      → Takes p q'
  by_timeget :
      {q q' : MpscAtomicMemPool} {x : Option ℕ} (old : Timespec) (clock : ℕ → Timespec)
      (rears : ℕ → ℕ) (fuel : ℕ)
      → Takes p q
      → timeget old clock rears fuel q ≡ ok (x, q')
      → Takes p q'

later-Overrun : (n : ℕ) {p q : MpscAtomicMemPool} → Takes p q → Overrun n p → Overrun n q
unfolding get tryget timeget
later-Overrun n none_yet o = o
later-Overrun n (by_get {q} {q'} {x} rears fuel t e) o =
    take_after-Overrun n (await fuel rears 0 q.ringqueue.front) (step32 q.rqnum) q q' x
      (later-Overrun n t o) e
later-Overrun n (by_tryget {q} {q'} {x} rears t e) o =
    take_after-Overrun n (try_await (λ k. rears 0) q.ringqueue.front) (step32 q.rqnum) q q' x
      (later-Overrun n t o) e
later-Overrun n (by_timeget {q} {q'} {x} old clock rears fuel t e) o =
    take_after-Overrun n (time_await fuel old clock rears 0 q.ringqueue.front) (step64 q.rqnum) q q'
      x (later-Overrun n t o) e

-- After the constructor of `mpsc_atomic_mem_pool`, with fewer than 2 ^ 32 - 1 elements, and any
-- number of successful calls that take, `put` reaches past the end of the array of flags.
pub put_past_end :
    (elesize elenum : ℕ) (bases : Bases) {p q : MpscAtomicMemPool}
    → elenum + 1 < 2 ^ 32
    → construct elesize elenum bases ≡ ok p
    → Takes p q
    → (e : Option ℕ) → put q e ≡ fault
unfolding put claim_flag
put_past_end elesize elenum bases {p} {q} w made t e =
    let (p', made', o) = construct-Overrun elesize elenum bases w in
    let same : p' ≡ p = cc in
    let o' = later-Overrun elenum t (subst (Overrun elenum) same o) in
    rw
      (read_fault q.rq_flag.cells q.ringqueue.rear (
        get_elem?-none q.rq_flag.cells q.ringqueue.rear (omega (arith, o'.flags_size, o'.rear_eq))))
      refl

-- When the first load of `rear` in `tryget` of a `mpsc_atomic_mem_pool` equals `front`, the
-- program ends, whatever `rear` is by the time of the later ones.
pub tryget_never_reloads :
    (rears : ℕ → ℕ) (p : MpscAtomicMemPool)
    → rears 0 ≡ p.ringqueue.front
    → tryget rears p ≡ exited failure
unfolding tryget take_after
tryget_never_reloads rears p e =
    rw (try_await_gives_up (λ k. rears 0) p.ringqueue.front (λ j l. e)) refl
