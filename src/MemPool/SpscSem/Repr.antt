-- ===== src/MemPool/SpscSem/Repr.antt =====
-- The calls of `spsc_sem_mem_pool` in src/mem_pool.hpp on a sound pool.
use rfdts.Base.{
  ℕ, zero, suc, ◌+◌, ◌^◌, ◌≤◌, ◌<◌, ◌≡◌, refl, ◌∙◌, ap, List, [], ◌∷◌, ◌++◌, Option, none, some,
  Outcome, ok, blocked, exited, failure, errno, einval, arith, length, set, length-append,
  put_cells, pointers, length-pointers, pointers-append, Below, Below-append, ltb, if◌then◌else◌,
}
use rfdts.Ring.{step32}
use rfdts.Ring.Position.{offset, offset-lt, step32_lem}
use rfdts.Ring.Holds.{Holds, put_slot-Holds, take_slot-Holds, read_slot-Holds}
use rfdts.Buffers.Layout.{Laid, SameShape, stamp-Laid}
use rfdts.Sem.Api.{SemApi, Timespec, billion}
use rfdts.Sem.{PosixSem}
use rfdts.Sem.Calls.{
  Counts, post-Counts, wait-Counts, wait_blocks, trywait-Counts, trywait_eagain, timewait-Counts,
  timewait_zero,
}
use rfdts.MemPool.Waiting.{get_try_num, get_wait_time}
use rfdts.MemPool.SpscSem.{
  SpscSemMemPool, try_wait, time_wait, get, tryget, timeget, read_after, put,
}

module _ (api : SemApi) where
  open api use {S, value_max}

  -- The free work requests are those of `q`, the next to be handed out first.
  pub record Repr (p : SpscSemMemPool S) (q : List ℕ) : Type 0 where
    pub small : p.elenum < 2 ^ 32
    pub holds : Holds p.elenum p.ringqueue (pointers q)
    pub counts : Counts api p.count (length q)
    pub laid : Laid p.elenum p.buffers
    pub ids : Below p.elenum q

  -- The call hands out `x`, and leaves a sound pool of the same size with `q` free.
  pub record Gets (call : Outcome (Option ℕ × SpscSemMemPool S)) (p : SpscSemMemPool S) (x : ℕ)
      (q : List ℕ) : Type 0 where
    pub after : SpscSemMemPool S
    pub returns : call ≡ ok (some x, after)
    pub sound : Repr after q
    pub same : SameShape p.buffers after.buffers

  -- `get` hands out the oldest free work request.
  pub get-Gets :
      (p : SpscSemMemPool S) (x : ℕ) (q : List ℕ) → Repr p (x ∷ q) → Gets (get api p) p x q
  unfolding get
  get-Gets p x q r =
      let (count, waited, counts) = wait-Counts api p.count (length q) r.counts in
      let step = step32_lem p.elenum p.ringqueue.front r.holds.front_lt r.small in
      let (taken, held) =
        take_slot-Holds none (step32 p.elenum) (some x) (pointers q) r.holds step in
      let (b, stamped, shape, laid, id, wr) = stamp-Laid p.elenum p.buffers x r.ids.0 r.laid in
      record {
        after = record {
          buffers = b;
          ringqueue = record {
            slots =
                put_cells p.ringqueue.slots (set p.ringqueue.slots.cells p.ringqueue.front none);
            front = step32 p.elenum p.ringqueue.front;
            rear = p.ringqueue.rear;
          };
          count = count;
        };
        returns = rw (waited, taken, stamped) refl;
        sound = record {
          small = rw (shape.elenum_eq) r.small;
          holds = rw (shape.elenum_eq) held;
          counts = counts;
          laid = rw (shape.elenum_eq) laid;
          ids = rw (shape.elenum_eq) (r.ids.1);
        };
        same = shape;
      }

  -- So do the other two, once they have taken one off the count.
  read_after-Gets :
      (acquired : Outcome (PosixSem S)) (p : SpscSemMemPool S) (x : ℕ) (q : List ℕ)
      → Repr p (x ∷ q)
      → (count : PosixSem S) → acquired ≡ ok count
      → Counts api count (length q)
      → Gets (read_after api acquired p) p x q
  unfolding read_after
  read_after-Gets acquired p x q r count got counts =
      let step = step32_lem p.elenum p.ringqueue.front r.holds.front_lt r.small in
      let (taken, held) = read_slot-Holds (step32 p.elenum) (some x) (pointers q) r.holds step in
      let (b, stamped, shape, laid, id, wr) = stamp-Laid p.elenum p.buffers x r.ids.0 r.laid in
      record {
        after = record {
          buffers = b;
          ringqueue = record (p.ringqueue) { front = step32 p.elenum p.ringqueue.front };
          count = count;
        };
        returns = rw (got, taken, stamped) refl;
        sound = record {
          small = rw (shape.elenum_eq) r.small;
          holds = rw (shape.elenum_eq) held;
          counts = counts;
          laid = rw (shape.elenum_eq) laid;
          ids = rw (shape.elenum_eq) (r.ids.1);
        };
        same = shape;
      }

  pub try_wait-Counts :
      (tries : ℕ) (count : PosixSem S) (n : ℕ)
      → Counts api count (suc n)
      → (c : PosixSem S) × (try_wait api (suc tries) count ≡ ok c) × Counts api c n
  unfolding try_wait
  try_wait-Counts tries count n c =
      let (count', tried, counts) = trywait-Counts api count n c in (count', rw tried refl, counts)

  pub try_wait_gives_up :
      (tries : ℕ) (count : PosixSem S)
      → Counts api count 0
      → try_wait api tries count ≡ exited failure
  unfolding try_wait
  try_wait_gives_up zero count c = refl
  try_wait_gives_up (suc tries) count c =
      rw (trywait_eagain api count c) (try_wait_gives_up tries count c)

  -- `tryget` hands out the oldest free work request.
  pub tryget-Gets :
      (p : SpscSemMemPool S) (x : ℕ) (q : List ℕ) → Repr p (x ∷ q) → Gets (tryget api p) p x q
  unfolding tryget
  tryget-Gets p x q r =
      let (count, tried, counts) = try_wait-Counts 99 p.count (length q) r.counts in
      read_after-Gets (try_wait api get_try_num p.count) p x q r count tried counts

  -- `timeget` hands out the oldest free work request, whatever the clock says.
  pub timeget-Gets :
      (now : Timespec) (p : SpscSemMemPool S) (x : ℕ) (q : List ℕ)
      → Repr p (x ∷ q)
      → Gets (timeget api now p) p x q
  unfolding timeget time_wait
  timeget-Gets now p x q r =
      let (count, waited, counts) =
        timewait-Counts api (record now { tv_nsec = now.tv_nsec + get_wait_time }) p.count
          (length q) r.counts in
      read_after-Gets (time_wait api now p.count) p x q r count (rw waited refl) counts

  -- On a sound empty `spsc_sem_mem_pool`, `get` waits, `tryget` exits with EXIT_FAILURE, and
  -- `timeget` does too unless the nanoseconds of its time plus 1000 reach a second: then the
  -- program ends with EINVAL.
  pub gets_empty :
      (now : Timespec) (p : SpscSemMemPool S)
      → Repr p []
      → (get api p ≡ blocked)
        × (tryget api p ≡ exited failure)
        × (timeget api now p ≡ (
            if ltb (now.tv_nsec + get_wait_time) billion
            then exited failure
            else exited (errno einval)))
  unfolding get tryget timeget read_after time_wait
  gets_empty now p r = (
    rw (wait_blocks api p.count r.counts) refl,
    rw (try_wait_gives_up get_try_num p.count r.counts) refl,
    rw (timewait_zero api (record now { tv_nsec = now.tv_nsec + get_wait_time }) p.count r.counts)
        (ground arith),
  )

  pub record Puts (p : SpscSemMemPool S) (q : List ℕ) (e : ℕ) : Type 0 where
    pub after : SpscSemMemPool S
    pub returns : put api p (some e) ≡ ok after
    pub sound : Repr after (q ++ e ∷ [])
    pub same : p.buffers ≡ after.buffers

  -- `put` of a work request of the pool appends it, while not every one is free.
  pub put-Puts :
      (p : SpscSemMemPool S) (q : List ℕ) (e : ℕ)
      → Repr p q
      → e < p.elenum
      → length q < p.elenum
      → p.elenum ≤ value_max
      → Puts p q e
  unfolding put
  put-Puts p q e r below room most =
      let rear_eq : p.ringqueue.rear ≡ offset p.elenum p.ringqueue.front (length q) =
        r.holds.rear_eq ∙ ap (offset p.elenum p.ringqueue.front) (length-pointers q) in
      let rear_lt : p.ringqueue.rear < p.elenum =
        rw rear_eq
          (offset-lt p.elenum p.ringqueue.front (length q) r.holds.front_lt (omega arith)) in
      let step = step32_lem p.elenum p.ringqueue.rear rear_lt r.small in
      let (stored, held) =
        put_slot-Holds (step32 p.elenum) (pointers q) (some e) r.holds
          (omega (arith, length-pointers q)) step in
      let (count, posted, counts) = post-Counts api p.count (length q) r.counts (omega arith) in
      record {
        after = record {
          buffers = p.buffers;
          ringqueue = record (p.ringqueue) {
            slots =
                put_cells p.ringqueue.slots (set p.ringqueue.slots.cells p.ringqueue.rear (some e));
            rear = step32 p.elenum p.ringqueue.rear;
          };
          count = count;
        };
        returns = rw (stored, posted) refl;
        sound = record {
          small = r.small;
          holds = rw (pointers-append q (e ∷ [])) held;
          counts = rw (length-append q (e ∷ [])) counts;
          laid = r.laid;
          ids = Below-append p.elenum q (e ∷ []) r.ids (below, tt);
        };
        same = refl;
      }
