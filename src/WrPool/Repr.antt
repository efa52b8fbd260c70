-- ===== src/WrPool/Repr.antt =====
-- What `get` and `put` of src/wr_pool.hpp do to a sound pool.
use rfdts.Base.{
  ℕ, ◌+◌, ◌^◌, ◌<◌, ◌≡◌, refl, ◌∙◌, ap, List, [], ◌∷◌, ◌++◌, true, false, Option, none, some, ok,
  blocked, fault, arith, length, get_elem?, set, length-append, read_lem, store_lem, put_cells,
  pointers, length-pointers, pointers-append, Below, Below-append,
}
use rfdts.Ring.{step32, step64, take_slot}
use rfdts.Ring.Position.{offset, offset-lt, offset_zero, step32_lem, step64_lem}
use rfdts.Ring.Holds.{Holds, put_slot-Holds, take_slot-Holds}
use rfdts.Ring.Flagged.{
  Flagged, Flagged-put, Flagged-take, rear_flag, rear_flag_full, claim_clear, claim_set,
}
use rfdts.Ring.Clear.{Clear, Clear-put, Clear-take}
use rfdts.Buffers.Layout.{Laid, SameShape, stamp-Laid, stamp_null}
use rfdts.WrPool.{WrPool, get, put}

-- The free work requests are those of `q`, the next to be handed out first.
pub record Repr (p : WrPool) (q : List ℕ) : Type 0 where
  pub rqnum_eq : p.rqnum ≡ p.elenum + 1
  pub small : p.rqnum < 2 ^ 32
  pub holds : Holds p.rqnum p.rq (pointers q)
  pub flagged : Flagged p.rqnum p.rq.front (length q) p.rq_flags
  pub clear : Clear none p.rqnum (length q) p.rq
  pub laid : Laid p.elenum p.buffers
  pub ids : Below p.elenum q

-- What `get` returns: the pool after it holds one work request less, and keeps its size.
pub record Got (p : WrPool) (x : ℕ) (q : List ℕ) : Type 0 where
  pub after : WrPool
  pub returns : get p ≡ ok (some x, after)
  pub sound : Repr after q
  pub same : SameShape p.buffers after.buffers

-- On a sound `wr_pool` with free work requests, `get` hands out the oldest and leaves a sound
-- pool with the others free, of the same sizes and region.
pub get_next : (p : WrPool) (x : ℕ) (q : List ℕ) → Repr p (x ∷ q) → Got p x q
unfolding get
get_next p x q r =
    let step = step32_lem p.rqnum p.rq.front r.holds.front_lt r.small in
    let (taken, held) = take_slot-Holds none (step32 p.rqnum) (some x) (pointers q) r.holds step in
    let flags =
      store_lem p.rq_flags p.rq.front false (omega (arith, r.flagged.size, r.flagged.front_lt)) in
    let (b, stamped, shape, laid, count, wr) = stamp-Laid p.elenum p.buffers x r.ids.0 r.laid in
    record {
      after = record {
        buffers = b;
        rqnum = p.rqnum;
        rq = record {
          slots = put_cells p.rq.slots (set p.rq.slots.cells p.rq.front none);
          front = step32 p.rqnum p.rq.front;
          rear = p.rq.rear;
        };
        rq_flags = put_cells p.rq_flags (set p.rq_flags.cells p.rq.front false);
      };
      returns = rw (taken, flags, stamped) refl;
      sound = record {
        rqnum_eq = rw (shape.elenum_eq) r.rqnum_eq;
        small = r.small;
        holds = held;
        flagged = rw step (Flagged-take r.flagged);
        clear = Clear-take none (length q) (step32 p.rqnum p.rq.front) r.clear step;
        laid = rw (shape.elenum_eq) laid;
        ids = rw (shape.elenum_eq) (r.ids.1);
      };
      same = shape;
    }

-- On a sound `wr_pool` with no free work request, `get` writes through a null pointer.
pub get_empty : (p : WrPool) → Repr p [] → get p ≡ fault
unfolding get take_slot
get_empty p r =
    rw
      (
        read_lem p.rq.slots.cells p.rq.front at_front,
        store_lem p.rq.slots p.rq.front none (omega (arith, r.holds.size, r.holds.front_lt)),
        store_lem p.rq_flags p.rq.front false (omega (arith, r.flagged.size, r.flagged.front_lt)),
        stamp_null p.buffers,
      )
      refl
  where
    at_front : get_elem? p.rq.slots.cells p.rq.front ≡ some none
    at_front =
        rw (← offset_zero p.rqnum p.rq.front r.clear.front_lt)
          (r.clear.empty 0 (omega arith) (omega (arith, r.clear.front_lt)))

pub record Put (p : WrPool) (q : List ℕ) (e : ℕ) : Type 0 where
  pub after : WrPool
  pub returns : put p (some e) ≡ ok after
  pub sound : Repr after (q ++ e ∷ [])
  pub same : p.buffers ≡ after.buffers

-- On a sound `wr_pool` with fewer than `rqnum` free work requests, `put` of one of the pool's
-- succeeds and appends it to the free ones.
pub put_back :
    (p : WrPool) (q : List ℕ) (e : ℕ) → Repr p q → e < p.elenum → length q < p.rqnum → Put p q e
unfolding put
put_back p q e r below room =
    let rear_eq : p.rq.rear ≡ offset p.rqnum p.rq.front (length q) =
      r.holds.rear_eq ∙ ap (offset p.rqnum p.rq.front) (length-pointers q) in
    let rear_lt : p.rq.rear < p.rqnum =
      rw rear_eq (offset-lt p.rqnum p.rq.front (length q) r.holds.front_lt (omega arith)) in
    let step = step64_lem p.rqnum p.rq.rear rear_lt r.small in
    let (stored, held) =
      put_slot-Holds (step64 p.rqnum) (pointers q) (some e) r.holds
        (omega (arith, length-pointers q)) step in
    let free : get_elem? p.rq_flags.cells p.rq.rear ≡ some false =
      rw rear_eq (rear_flag r.flagged room) in
    let one_more : length (q ++ e ∷ []) ≡ length q + 1 = length-append q (e ∷ []) in
    record {
      after = record p {
        rq = record (p.rq) {
          slots = put_cells p.rq.slots (set p.rq.slots.cells p.rq.rear (some e));
          rear = step64 p.rqnum p.rq.rear;
        };
        rq_flags = put_cells p.rq_flags (set p.rq_flags.cells p.rq.rear true);
      };
      returns = rw (claim_clear p.rq_flags p.rq.rear free, stored) refl;
      sound = record {
        rqnum_eq = r.rqnum_eq;
        small = r.small;
        holds = rw (pointers-append q (e ∷ [])) held;
        flagged = rw (one_more, rear_eq) (Flagged-put r.flagged room);
        clear =
            rw one_more
              (Clear-put none (length q) (step64 p.rqnum p.rq.rear) (some e) r.clear room rear_eq);
        laid = r.laid;
        ids = Below-append p.elenum q (e ∷ []) r.ids (below, tt);
      };
      same = refl;
    }

-- On a sound `wr_pool` whose ring is full, the flag at the rear is set, and `put` waits for a
-- `get`.
pub put_full :
    (p : WrPool) (q : List ℕ) (e : Option ℕ) → Repr p q → length q ≡ p.rqnum → put p e ≡ blocked
unfolding put
put_full p q e r full =
    rw
      (claim_set p.rq_flags p.rq.rear
        (rw (r.holds.rear_eq, length-pointers q) (rear_flag_full r.flagged full)))
      refl
