-- ===== src/MemPool/MpscSem/Repr.antt =====
-- The calls of `mpsc_sem_mem_pool` in src/mem_pool.hpp on a sound pool.
use rfdts.Base.{
  ℕ, ◌+◌, ◌^◌, ◌≤◌, ◌<◌, ◌≡◌, refl, ◌∙◌, ap, List, [], ◌∷◌, ◌++◌, true, false, Option, none, some,
  Outcome, ok, blocked, exited, failure, errno, einval, arith, length, get_elem?, set,
  length-append, store_lem, put_cells, pointers, length-pointers, pointers-append, Below,
  Below-append, ltb, if◌then◌else◌,
}
use rfdts.Ring.{step32, step64}
use rfdts.Ring.Position.{offset, offset-lt, step32_lem, step64_lem}
use rfdts.Ring.Holds.{Holds, put_slot-Holds, take_slot-Holds}
use rfdts.Ring.Flagged.{
  Flagged, Flagged-put, Flagged-take, rear_flag, rear_flag_full, claim_clear, claim_set,
}
use rfdts.Buffers.Layout.{Laid, SameShape, stamp-Laid}
use rfdts.Sem.Api.{SemApi, Timespec, billion}
use rfdts.Sem.{PosixSem}
use rfdts.Sem.Calls.{Counts, post-Counts, wait-Counts, wait_blocks, timewait-Counts, timewait_zero}
use rfdts.MemPool.Waiting.{get_try_num, get_wait_time}
use rfdts.MemPool.SpscSem.{try_wait, time_wait}
use rfdts.MemPool.SpscSem.Repr.{try_wait-Counts, try_wait_gives_up}
use rfdts.MemPool.MpscSem.{MpscSemMemPool, take_after, get, tryget, timeget, put}

module _ (api : SemApi) where
  open api use {S, value_max}

  -- The free work requests are those of `q`, the next to be handed out first.
  pub record Repr (p : MpscSemMemPool S) (q : List ℕ) : Type 0 where
    pub small : p.elenum < 2 ^ 32
    pub holds : Holds p.elenum p.ringqueue (pointers q)
    pub flagged : Flagged p.elenum p.ringqueue.front (length q) p.rq_flag
    pub counts : Counts api p.count (length q)
    pub laid : Laid p.elenum p.buffers
    pub ids : Below p.elenum q

  -- The call hands out `x`, and leaves a sound pool of the same size with `q` free.
  pub record Gets (call : Outcome (Option ℕ × MpscSemMemPool S)) (p : MpscSemMemPool S) (x : ℕ)
      (q : List ℕ) : Type 0 where
    pub after : MpscSemMemPool S
    pub returns : call ≡ ok (some x, after)
    pub sound : Repr after q
    pub same : SameShape p.buffers after.buffers

  take_after-Gets :
      (acquired : Outcome (PosixSem S)) (p : MpscSemMemPool S) (x : ℕ) (q : List ℕ)
      → Repr p (x ∷ q)
      → (count : PosixSem S) → acquired ≡ ok count
      → Counts api count (length q)
      → Gets (take_after api acquired p) p x q
  unfolding take_after
  take_after-Gets acquired p x q r count got counts =
      let step = step32_lem p.elenum p.ringqueue.front r.holds.front_lt r.small in
      let (taken, held) =
        take_slot-Holds none (step32 p.elenum) (some x) (pointers q) r.holds step in
      let flags =
        store_lem p.rq_flag p.ringqueue.front false
          (omega (arith, r.flagged.size, r.flagged.front_lt)) in
      let (b, stamped, shape, laid, id, wr) = stamp-Laid p.elenum p.buffers x r.ids.0 r.laid in
      record {
        after = record {
          buffers = b;
          ringqueue = record {
            slots =
                put_cells p.ringqueue.slots (set p.ringqueue.slots.cells p.ringqueue.front none);
            front = step32 p.elenum p.ringqueue.front;
            rear = p.ringqueue.rear;
          };
          rq_flag = put_cells p.rq_flag (set p.rq_flag.cells p.ringqueue.front false);
          count = count;
        };
        returns = rw (got, taken, flags, stamped) refl;
        sound = record {
          small = rw (shape.elenum_eq) r.small;
          holds = rw (shape.elenum_eq) held;
          flagged = rw (shape.elenum_eq, step) (Flagged-take r.flagged);
          counts = counts;
          laid = rw (shape.elenum_eq) laid;
          ids = rw (shape.elenum_eq) (r.ids.1);
        };
        same = shape;
      }

  -- `get` hands out the oldest free work request.
  pub mpsc_sem_get-Gets :
      (p : MpscSemMemPool S) (x : ℕ) (q : List ℕ) → Repr p (x ∷ q) → Gets (get api p) p x q
  unfolding get
  mpsc_sem_get-Gets p x q r =
      let (count, waited, counts) = wait-Counts api p.count (length q) r.counts in
      take_after-Gets _ p x q r count waited counts

  -- So does `tryget`.
  pub mpsc_sem_tryget-Gets :
      (p : MpscSemMemPool S) (x : ℕ) (q : List ℕ) → Repr p (x ∷ q) → Gets (tryget api p) p x q
  unfolding tryget
  mpsc_sem_tryget-Gets p x q r =
      let (count, tried, counts) = try_wait-Counts api 99 p.count (length q) r.counts in
      take_after-Gets (try_wait api get_try_num p.count) p x q r count tried counts

  -- So does `timeget`, whatever the clock says.
  pub mpsc_sem_timeget-Gets :
      (now : Timespec) (p : MpscSemMemPool S) (x : ℕ) (q : List ℕ)
      → Repr p (x ∷ q)
      → Gets (timeget api now p) p x q
  unfolding timeget time_wait
  mpsc_sem_timeget-Gets now p x q r =
      let (count, waited, counts) =
        timewait-Counts api (record now { tv_nsec = now.tv_nsec + get_wait_time }) p.count
          (length q) r.counts in
      take_after-Gets (time_wait api now p.count) p x q r count (rw waited refl) counts

  -- On a sound empty `mpsc_sem_mem_pool`, `get` waits, `tryget` exits with EXIT_FAILURE, and
  -- `timeget` does too unless the nanoseconds of its time plus 1000 reach a second: then the
  -- program ends with EINVAL.
  pub mpsc_sem_gets_empty :
      (now : Timespec) (p : MpscSemMemPool S)
      → Repr p []
      → (get api p ≡ blocked)
        × (tryget api p ≡ exited failure)
        × (timeget api now p ≡ (
            if ltb (now.tv_nsec + get_wait_time) billion
            then exited failure
            else exited (errno einval)))
  unfolding get tryget timeget take_after time_wait
  mpsc_sem_gets_empty now p r = (
    rw (wait_blocks api p.count r.counts) refl,
    rw (try_wait_gives_up api get_try_num p.count r.counts) refl,
    rw (timewait_zero api (record now { tv_nsec = now.tv_nsec + get_wait_time }) p.count r.counts)
        (ground arith),
  )

  rear-eq :
      (p : MpscSemMemPool S) (q : List ℕ)
      → Repr p q
      → p.ringqueue.rear ≡ offset p.elenum p.ringqueue.front (length q)
  rear-eq p q r = r.holds.rear_eq ∙ ap (offset p.elenum p.ringqueue.front) (length-pointers q)

  pub record Puts (p : MpscSemMemPool S) (q : List ℕ) (e : ℕ) : Type 0 where
    pub after : MpscSemMemPool S
    pub returns : put api p (some e) ≡ ok after
    pub sound : Repr after (q ++ e ∷ [])
    pub same : p.buffers ≡ after.buffers

  -- `put` of a work request of the pool appends it, while not every one is free.
  pub mpsc_sem_put-Puts :
      (p : MpscSemMemPool S) (q : List ℕ) (e : ℕ)
      → Repr p q
      → e < p.elenum
      → length q < p.elenum
      → p.elenum ≤ value_max
      → Puts p q e
  unfolding put
  mpsc_sem_put-Puts p q e r below room most =
      let rear_eq = rear-eq p q r in
      let rear_lt : p.ringqueue.rear < p.elenum =
        rw rear_eq
          (offset-lt p.elenum p.ringqueue.front (length q) r.holds.front_lt (omega arith)) in
      let step = step64_lem p.elenum p.ringqueue.rear rear_lt r.small in
      let (stored, held) =
        put_slot-Holds (step64 p.elenum) (pointers q) (some e) r.holds
          (omega (arith, length-pointers q)) step in
      let free : get_elem? p.rq_flag.cells p.ringqueue.rear ≡ some false =
        rw rear_eq (rear_flag r.flagged room) in
      let (count, posted, counts) = post-Counts api p.count (length q) r.counts (omega arith) in
      let one_more : length (q ++ e ∷ []) ≡ length q + 1 = length-append q (e ∷ []) in
      record {
        after = record {
          buffers = p.buffers;
          ringqueue = record (p.ringqueue) {
            slots =
                put_cells p.ringqueue.slots (set p.ringqueue.slots.cells p.ringqueue.rear (some e));
            rear = step64 p.elenum p.ringqueue.rear;
          };
          rq_flag = put_cells p.rq_flag (set p.rq_flag.cells p.ringqueue.rear true);
          count = count;
        };
        returns = rw (claim_clear p.rq_flag p.ringqueue.rear free, stored, posted) refl;
        sound = record {
          small = r.small;
          holds = rw (pointers-append q (e ∷ [])) held;
          flagged = rw (one_more, rear_eq) (Flagged-put r.flagged room);
          counts = rw one_more counts;
          laid = r.laid;
          ids = Below-append p.elenum q (e ∷ []) r.ids (below, tt);
        };
        same = refl;
      }

  -- On a sound `mpsc_sem_mem_pool` with every work request free, `put` waits for a reader.
  pub mpsc_sem_put_full :
      (p : MpscSemMemPool S) (q : List ℕ) (e : Option ℕ)
      → Repr p q
      → length q ≡ p.elenum
      → put api p e ≡ blocked
  unfolding put
  mpsc_sem_put_full p q e r full =
      rw (claim_set p.rq_flag p.ringqueue.rear (rw (rear-eq p q r) (rear_flag_full r.flagged full)))
        refl
