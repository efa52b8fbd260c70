-- ===== src/MemPool/MpscSem/Life.antt =====
-- `mpsc_sem_mem_pool` of src/mem_pool.hpp: constructing.
use rfdts.Base.{
  ℕ, zero, suc, ◌+◌, ◌^◌, ◌≤◌, ◌<◌, ◌≡◌, refl, ◌∙◌, sym, subst, [], ◌∷◌, ◌++◌, true, none, some, ok,
  arith, length, set, upto, length-upto, upto-Below, pointers, length-pointers, pointers-append,
  put_cells, store_lem,
}
use native.Mathlib.Numerals.{add-one}
use rfdts.Ring.{step32, put_slot}
use rfdts.Ring.Position.{step32_lem, offset}
use rfdts.Ring.Holds.{Holds, Holds-nil, put_slot-Holds}
use rfdts.Ring.Flagged.{Flagged, Flagged-nil, Flagged-put}
use rfdts.Buffers.{Bases, initial_buffers}
use rfdts.Buffers.Layout.{
  Laid, SameShape, SameShape-refl, SameShape-trans, initial-Laid, prepare-Laid,
}
use rfdts.Sem.Api.{SemApi}
use rfdts.Sem.Calls.{Counts, unnamed-Counts, post-Counts}
use rfdts.MemPool.MpscSem.{MpscSemMemPool, members, fill, fill_from, construct}
use rfdts.MemPool.MpscSem.Repr.{Repr}

module _ (api : SemApi) where
  open api use {S, value_max}

  -- The pool after `i` rounds of the loop. With every element in place `rear` is back at 0.
  record Filled (i : ℕ) (p : MpscSemMemPool S) : Type 0 where
    small : p.elenum < 2 ^ 32
    at_start : p.ringqueue.front ≡ 0
    holds : Holds p.elenum p.ringqueue (pointers (upto i))
    flagged : Flagged p.elenum p.ringqueue.front i p.rq_flag
    counts : Counts api p.count i
    laid : Laid i p.buffers

  abbrev Starts : ℕ → ℕ → Bases → Type 0
  Starts elesize elenum bases =
      (p : MpscSemMemPool S) × (members api elesize elenum bases ≡ ok p)
      × Filled 0 p
      × SameShape (initial_buffers elesize elenum bases) p.buffers

  members-Filled :
      (elesize elenum : ℕ) (bases : Bases)
      → 0 < elenum
      → elenum < 2 ^ 32
      → Starts elesize elenum bases
  unfolding members
  members-Filled elesize elenum bases h w =
      let (count, made, counts) = unnamed-Counts api 0 (omega arith) in
      (
        _,
        rw made refl,
        record {
          small = w;
          at_start = refl;
          holds = Holds-nil elenum bases.rq_base none h;
          flagged = Flagged-nil elenum bases.flags_base h;
          counts = counts;
          laid = initial-Laid elesize elenum bases;
        },
        SameShape-refl (initial_buffers elesize elenum bases),
      )

  abbrev Advances : ℕ → MpscSemMemPool S → Type 0
  Advances i p =
      (p' : MpscSemMemPool S) × (fill api p i ≡ ok p')
      × Filled (suc i) p'
      × SameShape p.buffers p'.buffers

  fill-Filled :
      (i : ℕ) (p : MpscSemMemPool S)
      → i < p.elenum
      → p.elenum ≤ value_max
      → Filled i p
      → Advances i p
  unfolding fill put_slot
  fill-Filled i p h most f =
      let (b, prepared, shape, laid, id) = prepare-Laid (λ o. o) p.buffers i h f.laid in
      let room : length (pointers (upto i)) < p.elenum =
        omega (arith, length-pointers (upto i), length-upto i) in
      let rear_is : p.ringqueue.rear ≡ i =
        ground (arith, f.holds.rear_eq, f.at_start, length-pointers (upto i), length-upto i) in
      let step = step32_lem p.elenum p.ringqueue.rear (rw rear_is h) f.small in
      let (stored, held) =
        put_slot-Holds (step32 p.elenum) (pointers (upto i)) (some i) f.holds room step in
      let flags = store_lem p.rq_flag i true (omega (arith, f.flagged.size)) in
      let here : offset p.elenum p.ringqueue.front i ≡ i = ground (arith, f.at_start) in
      let (count, posted, counts) = post-Counts api p.count i f.counts (omega arith) in
      (
        record {
          buffers = b;
          ringqueue = record (p.ringqueue) {
            slots = put_cells p.ringqueue.slots (set p.ringqueue.slots.cells i (some i));
            rear = step32 p.elenum p.ringqueue.rear;
          };
          rq_flag = put_cells p.rq_flag (set p.rq_flag.cells i true);
          count = count;
        },
        rw
            (
              prepared,
              store_lem p.ringqueue.slots i (some i) (omega (arith, f.holds.size)),
              flags,
              posted,
            )
            refl,
        record {
          small = rw (shape.elenum_eq) f.small;
          at_start = f.at_start;
          holds =
              rw (shape.elenum_eq, pointers-append (upto i) (i ∷ []))
                (subst
                  (λ k.
                    Holds p.elenum
                      (record (p.ringqueue) {
                        slots =
                            put_cells p.ringqueue.slots (set p.ringqueue.slots.cells k (some i));
                        rear = step32 p.elenum p.ringqueue.rear;
                      })
                      (pointers (upto i) ++ some i ∷ []))
                  rear_is held);
          flagged = rw (shape.elenum_eq) (
              subst
                (λ k.
                  Flagged p.elenum p.ringqueue.front k
                    (put_cells p.rq_flag (set p.rq_flag.cells i true)))
                (add-one i)
                (subst
                  (λ k.
                    Flagged p.elenum p.ringqueue.front (i + 1)
                      (put_cells p.rq_flag (set p.rq_flag.cells k true)))
                  here (Flagged-put f.flagged h)));
          counts = rw (← add-one i) counts;
          laid = laid;
        },
        shape,
      )

  abbrev Finishes : ℕ → ℕ → MpscSemMemPool S → Type 0
  Finishes rounds i p =
      (p' : MpscSemMemPool S) × (fill_from api rounds i p ≡ ok p')
      × Filled (i + rounds) p'
      × SameShape p.buffers p'.buffers

  fill_from-Filled :
      (rounds i : ℕ) (p : MpscSemMemPool S)
      → i + rounds ≤ p.elenum
      → p.elenum ≤ value_max
      → Filled i p
      → Finishes rounds i p
  unfolding fill_from
  fill_from-Filled zero i p h most f =
      (p, refl, subst (λ k. Filled k p) (omega arith) f, SameShape-refl p.buffers)
  fill_from-Filled (suc rounds) i p h most f =
      let (p', filled, f', shape) = fill-Filled i p (omega arith) most f in
      let (p'', finished, f'', shape') =
        fill_from-Filled rounds (i + 1) p' (omega (arith, shape.elenum_eq))
          (omega (arith, shape.elenum_eq)) (rw add-one f') in
      (
        p'',
        rw filled finished,
        subst (λ k. Filled k p'') (omega arith) f'',
        SameShape-trans shape shape',
      )

  -- What the constructors return: a sound pool with every work request free.
  pub record Built (elesize elenum : ℕ) (bases : Bases) : Type 0 where
    pub pool : MpscSemMemPool S
    pub returns : construct api elesize elenum bases ≡ ok pool
    pub sound : Repr api pool (upto elenum)
    pub elenum_eq : pool.elenum ≡ elenum
    pub addr_eq : pool.addr ≡ bases.addr_base

  -- A constructor with at least one element, and no more than a semaphore counts, returns such a
  -- pool, whatever the size of an element.
  pub mpsc_sem_construct-Built :
      (elesize elenum : ℕ) (bases : Bases)
      → 0 < elenum
      → elenum < 2 ^ 32
      → elenum ≤ value_max
      → Built elesize elenum bases
  unfolding construct initial_buffers
  mpsc_sem_construct-Built elesize elenum bases h w most =
      let (p, made, f, shape) = members-Filled elesize elenum bases h w in
      let size : p.elenum ≡ elenum = shape.elenum_eq in
      let (p', finished, f', shape') =
        fill_from-Filled elenum 0 p (omega (arith, size)) (omega (arith, size)) f in
      let f' : Filled elenum p' = subst (λ k. Filled k p') (omega arith) f' in
      let size' : p'.elenum ≡ elenum = shape'.elenum_eq ∙ size in
      record {
        pool = p';
        returns = rw made finished;
        sound = record {
          small = f'.small;
          holds = f'.holds;
          flagged =
              rw (length-upto elenum, size')
                (subst (λ k. Flagged k p'.ringqueue.front elenum p'.rq_flag) size' f'.flagged);
          counts = rw (length-upto elenum) (f'.counts);
          laid = subst (λ k. Laid k p'.buffers) (sym size') f'.laid;
          ids = rw size' (upto-Below elenum);
        };
        elenum_eq = size';
        addr_eq = shape'.addr_eq ∙ shape.addr_eq;
      }
