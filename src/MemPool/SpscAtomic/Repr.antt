-- ===== src/MemPool/SpscAtomic/Repr.antt =====
-- The calls of `spsc_atomic_mem_pool` in src/mem_pool.hpp on a sound pool.
use rfdts.Base.{
  ℕ, true, ◌+◌, ◌^◌, ◌<◌, ◌≡◌, refl, ◌≢◌, ◌∙◌, ap, List, [], ◌∷◌, ◌++◌, Option, none, some, Outcome,
  ok, blocked, exited, failure, arith, length, set, put_cells, pointers, length-pointers,
  pointers-append, Below, Below-append,
}
use rfdts.Ring.{step32, step64}
use rfdts.Ring.Position.{offset, offset-lt, step32_lem, step64_lem}
use rfdts.Ring.Holds.{Holds, put_slot-Holds, take_slot-Holds}
use rfdts.Buffers.Layout.{Laid, SameShape, stamp-Laid}
use rfdts.Sem.Api.{Timespec}
use rfdts.MemPool.Waiting.{get_try_num, await, try_await, time_over, time_await}
use rfdts.MemPool.Waiting.Bounds.{
  await_ends, await_forever, try_await_ends, try_await_gives_up, time_await_gives_up,
  time_await_seen,
}
use rfdts.MemPool.SpscAtomic.{SpscAtomicMemPool, take_after, get, tryget, timeget, put}

-- The free work requests are those of `q`, the next to be handed out first.
pub record Repr (p : SpscAtomicMemPool) (q : List ℕ) : Type 0 where
  pub rqnum_eq : p.rqnum ≡ p.elenum + 1
  pub small : p.rqnum < 2 ^ 32
  pub holds : Holds p.rqnum p.ringqueue (pointers q)
  pub laid : Laid p.elenum p.buffers
  pub ids : Below p.elenum q

pub rear-eq :
    (p : SpscAtomicMemPool) (q : List ℕ)
    → Repr p q
    → p.ringqueue.rear ≡ offset p.rqnum p.ringqueue.front (length q)
rear-eq p q r = r.holds.rear_eq ∙ ap (offset p.rqnum p.ringqueue.front) (length-pointers q)

-- The call hands out `x`, and leaves a sound pool of the same size with `q` free.
pub record Gets (call : Outcome (Option ℕ × SpscAtomicMemPool)) (p : SpscAtomicMemPool) (x : ℕ)
    (q : List ℕ) : Type 0 where
  pub after : SpscAtomicMemPool
  pub returns : call ≡ ok (some x, after)
  pub sound : Repr after q
  pub same : SameShape p.buffers after.buffers

take_after-Gets :
    (waited : Outcome (Unit {0})) (step : ℕ → ℕ) (p : SpscAtomicMemPool) (x : ℕ) (q : List ℕ)
    → waited ≡ ok tt
    → step p.ringqueue.front ≡ offset p.rqnum p.ringqueue.front 1
    → Repr p (x ∷ q)
    → Gets (take_after waited step p) p x q
unfolding take_after
take_after-Gets waited step p x q done steps r =
    let (taken, held) = take_slot-Holds none step (some x) (pointers q) r.holds steps in
    let (b, stamped, shape, laid, id, wr) = stamp-Laid p.elenum p.buffers x r.ids.0 r.laid in
    record {
      after = record {
        buffers = b;
        rqnum = p.rqnum;
        ringqueue = record {
          slots = put_cells p.ringqueue.slots (set p.ringqueue.slots.cells p.ringqueue.front none);
          front = step p.ringqueue.front;
          rear = p.ringqueue.rear;
        };
      };
      returns = rw (done, taken, stamped) refl;
      sound = record {
        rqnum_eq = rw (shape.elenum_eq) r.rqnum_eq;
        small = r.small;
        holds = held;
        laid = rw (shape.elenum_eq) laid;
        ids = rw (shape.elenum_eq) (r.ids.1);
      };
      same = shape;
    }

-- `get` hands out the oldest free work request as soon as one of its loads shows the writer's
-- progress.
pub atomic_get-Gets :
    (rears : ℕ → ℕ) (j fuel : ℕ) (p : SpscAtomicMemPool) (x : ℕ) (q : List ℕ)
    → rears j ≢ p.ringqueue.front
    → j < fuel
    → Repr p (x ∷ q)
    → Gets (get rears fuel p) p x q
unfolding get
atomic_get-Gets rears j fuel p x q d h r =
    take_after-Gets (await fuel rears 0 p.ringqueue.front) (step32 p.rqnum) p x q
      (await_ends fuel rears 0 j p.ringqueue.front (λ e. d (ap rears (omega arith) ∙ e)) h)
      (step32_lem p.rqnum p.ringqueue.front r.holds.front_lt r.small) r

-- So does `tryget` when this is one of its first hundred loads.
pub atomic_tryget-Gets :
    (rears : ℕ → ℕ) (j : ℕ) (p : SpscAtomicMemPool) (x : ℕ) (q : List ℕ)
    → rears j ≢ p.ringqueue.front
    → j < get_try_num
    → Repr p (x ∷ q)
    → Gets (tryget rears p) p x q
unfolding tryget
atomic_tryget-Gets rears j p x q d h r =
    take_after-Gets (try_await rears p.ringqueue.front) (step32 p.rqnum) p x q
      (try_await_ends rears j p.ringqueue.front h d)
      (step32_lem p.rqnum p.ringqueue.front r.holds.front_lt r.small) r

-- `timeget` does when its first load is such a one, whatever the clock says.
pub atomic_timeget-Gets :
    (old : Timespec) (clock : ℕ → Timespec) (rears : ℕ → ℕ) (fuel : ℕ) (p : SpscAtomicMemPool)
    (x : ℕ) (q : List ℕ)
    → rears 0 ≢ p.ringqueue.front
    → 0 < fuel
    → Repr p (x ∷ q)
    → Gets (timeget old clock rears fuel p) p x q
unfolding timeget
atomic_timeget-Gets old clock rears fuel p x q d h r =
    take_after-Gets (time_await fuel old clock rears 0 p.ringqueue.front) (step64 p.rqnum) p x q
      (time_await_seen fuel old clock rears p.ringqueue.front d h)
      (step64_lem p.rqnum p.ringqueue.front r.holds.front_lt r.small) r

-- While every load of `rear` equals `front`, `get` of a `spsc_atomic_mem_pool` waits however long
-- it runs, `tryget` ends the program, and so does `timeget`, once its clock is over the time
-- allowed.
pub atomic_gets_empty :
    (old : Timespec) (clock : ℕ → Timespec) (rears : ℕ → ℕ) (fuel late : ℕ) (p : SpscAtomicMemPool)
    → ((k : ℕ) → rears k ≡ p.ringqueue.front)
    → time_over old (clock late) ≡ true
    → late < fuel
    → (get rears fuel p ≡ blocked)
      × (tryget rears p ≡ exited failure)
      × (timeget old clock rears fuel p ≡ exited failure)
unfolding get tryget timeget take_after
atomic_gets_empty old clock rears fuel late p same over h = (
  rw (await_forever fuel rears 0 p.ringqueue.front same) refl,
  rw (try_await_gives_up rears p.ringqueue.front (λ j l. same j)) refl,
  rw
      (time_await_gives_up fuel old clock rears 0 late p.ringqueue.front same
        (ap (λ m. time_over old (clock m)) (omega arith) ∙ over) h)
      refl,
)

pub record Puts (p : SpscAtomicMemPool) (q : List ℕ) (e : ℕ) : Type 0 where
  pub after : SpscAtomicMemPool
  pub returns : put p (some e) ≡ ok after
  pub sound : Repr after (q ++ e ∷ [])
  pub same : p.buffers ≡ after.buffers

-- `put` of a work request of the pool appends it, while not every one is free.
pub atomic_put-Puts :
    (p : SpscAtomicMemPool) (q : List ℕ) (e : ℕ)
    → Repr p q
    → e < p.elenum
    → length q < p.elenum
    → Puts p q e
unfolding put
atomic_put-Puts p q e r below room =
    let rear_eq = rear-eq p q r in
    let rear_lt : p.ringqueue.rear < p.rqnum = rw rear_eq (
      offset-lt p.rqnum p.ringqueue.front (length q) r.holds.front_lt
        (omega (arith, r.rqnum_eq))) in
    let step = step64_lem p.rqnum p.ringqueue.rear rear_lt r.small in
    let (stored, held) =
      put_slot-Holds (step64 p.rqnum) (pointers q) (some e) r.holds
        (omega (arith, length-pointers q, r.rqnum_eq)) step in
    record {
      after = record p {
        ringqueue = record (p.ringqueue) {
          slots =
              put_cells p.ringqueue.slots (set p.ringqueue.slots.cells p.ringqueue.rear (some e));
          rear = step64 p.rqnum p.ringqueue.rear;
        };
      };
      returns = rw stored refl;
      sound = record {
        rqnum_eq = r.rqnum_eq;
        small = r.small;
        holds = rw (pointers-append q (e ∷ [])) held;
        laid = r.laid;
        ids = Below-append p.elenum q (e ∷ []) r.ids (below, tt);
      };
      same = refl;
    }
