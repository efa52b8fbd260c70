-- ===== src/WrPool/Construct.antt =====
-- The constructor of src/wr_pool.hpp.
use rfdts.Base.{
  ℕ, zero, suc, ◌+◌, ◌*◌, ◌^◌, ◌≤◌, ◌<◌, ◌≡◌, refl, ◌∙◌, ap, sym, subst, ◌⊎◌, inl, inr, none, some,
  ok, [], ◌∷◌, exited, errno, einval, true, false, arith, length, set, upto, length-upto,
  upto-Below, pointers, length-pointers, pointers-append, put_cells, ne→==, store_lem,
  length-replicate,
}
use native.Mathlib.Numerals.{add-one}
use rfdts.Base.Words.{u32, u64}
use rfdts.Ring.{step32}
use rfdts.Ring.Position.{offset, offset-lt, step32_lem}
use rfdts.Ring.Holds.{Holds, Holds-nil, put_slot-Holds, set_rear-Holds}
use rfdts.Ring.Flagged.{Flagged, Flagged-nil, Flagged-put, Flagged-clear_rear}
use rfdts.Ring.Clear.{Clear, Clear-nil, Clear-put, Clear-set_rear}
use rfdts.Buffers.{Bases, initial_buffers}
use rfdts.Buffers.Layout.{
  Laid, SameShape, SameShape-refl, SameShape-trans, initial-Laid, prepare-Laid,
}
use rfdts.WrPool.{WrPool, members, fill, fill_from, construct}
use rfdts.WrPool.Repr.{Repr}

-- The pool after `i` rounds of the constructor's loop.
record Filled (i : ℕ) (p : WrPool) : Type 0 where
  rqnum_eq : p.rqnum ≡ p.elenum + 1
  small : p.rqnum < 2 ^ 32
  at_start : p.rq.front ≡ 0
  holds : Holds p.rqnum p.rq (pointers (upto i))
  flagged : Flagged p.rqnum p.rq.front i p.rq_flags
  clear : Clear none p.rqnum i p.rq
  laid : Laid i p.buffers

rear-eq : (i : ℕ) (p : WrPool) → Filled i p → p.rq.rear ≡ offset p.rqnum p.rq.front i
rear-eq i p f =
    f.holds.rear_eq ∙ ap (offset p.rqnum p.rq.front) (length-pointers (upto i) ∙ length-upto i)

members-Filled :
    (elesize elenum : ℕ) (bases : Bases)
    → elenum + 1 < 2 ^ 32
    → Filled 0 (members elesize elenum bases)
unfolding members
members-Filled elesize elenum bases h = record {
  rqnum_eq = omega arith;
  small = omega arith;
  at_start = refl;
  holds = Holds-nil (u32 (elenum + 1)) bases.rq_base none (omega arith);
  flagged = Flagged-nil (u32 (elenum + 1)) bases.flags_base (omega arith);
  clear =
      Clear-nil none (u32 (elenum + 1)) bases.rq_base (omega arith) refl
        (length-replicate (u32 (elenum + 1)) none) refl;
  laid = initial-Laid elesize elenum bases;
}

abbrev Advances : ℕ → WrPool → Type 0
Advances i p =
    (p' : WrPool) × (fill p i ≡ ok p') × Filled (suc i) p' × SameShape p.buffers p'.buffers

fill-Filled : (i : ℕ) (p : WrPool) → i < p.elenum → Filled i p → Advances i p
unfolding fill
fill-Filled i p h f =
    let (b, prepared, shape, laid, count) = prepare-Laid (λ o. o) p.buffers i h f.laid in
    let rear_eq = rear-eq i p f in
    let room : length (pointers (upto i)) < p.rqnum =
      omega (arith, length-pointers (upto i), length-upto i, f.rqnum_eq) in
    let rear_is : p.rq.rear ≡ i = ground (arith, rear_eq, f.at_start, f.rqnum_eq) in
    let below : i < p.rqnum = omega (arith, f.rqnum_eq) in
    let step = step32_lem p.rqnum p.rq.rear (rw rear_is below) f.small in
    let (stored, held) =
      put_slot-Holds (step32 p.rqnum) (pointers (upto i)) (some i) f.holds room step in
    let place : offset p.rqnum p.rq.front i ≡ i = ground (arith, f.at_start) in
    let flags = Flagged-put f.flagged below in
    (
      record {
        buffers = b;
        rqnum = p.rqnum;
        rq = record (p.rq) {
          slots = put_cells p.rq.slots (set p.rq.slots.cells p.rq.rear (some i));
          rear = step32 p.rqnum p.rq.rear;
        };
        rq_flags = put_cells p.rq_flags (set p.rq_flags.cells i true);
      },
      rw (prepared, stored, store_lem p.rq_flags i true (omega (arith, f.flagged.size))) refl,
      record {
        rqnum_eq = rw (shape.elenum_eq) f.rqnum_eq;
        small = f.small;
        at_start = f.at_start;
        holds = rw (pointers-append (upto i) (i ∷ [])) held;
        flagged = rw (← add-one i) (rw place at flags);
        clear =
            rw (← add-one i)
              (Clear-put none i (step32 p.rqnum p.rq.rear) (some i) f.clear below rear_eq);
        laid = laid;
      },
      shape,
    )

abbrev Finishes : ℕ → ℕ → WrPool → Type 0
Finishes rounds i p =
    (p' : WrPool) × (fill_from rounds i p ≡ ok p')
    × Filled (i + rounds) p'
    × SameShape p.buffers p'.buffers

fill_from-Filled :
    (rounds i : ℕ) (p : WrPool) → i + rounds ≤ p.elenum → Filled i p → Finishes rounds i p
unfolding fill_from
fill_from-Filled zero i p h f =
    (p, refl, subst (λ k. Filled k p) (omega arith) f, SameShape-refl p.buffers)
fill_from-Filled (suc rounds) i p h f =
    let (p', filled, f', shape) = fill-Filled i p (omega arith) f in
    let (p'', finished, f'', shape') =
      fill_from-Filled rounds (i + 1) p' (omega (arith, shape.elenum_eq)) (rw add-one f') in
    (
      p'',
      rw filled finished,
      subst (λ k. Filled k p'') (omega arith) f'',
      SameShape-trans shape shape',
    )

-- What the constructor returns: a sound pool with every work request free, in the order of their
-- elements, over the region and of the sizes that it was given.
pub record Built (elesize elenum : ℕ) (bases : Bases) : Type 0 where
  pub pool : WrPool
  pub returns : construct elesize elenum bases ≡ ok pool
  pub sound : Repr pool (upto elenum)
  pub elesize_eq : pool.elesize ≡ elesize
  pub elenum_eq : pool.elenum ≡ elenum
  pub addr_eq : pool.addr ≡ bases.addr_base
  pub length_eq : pool.length ≡ u64 (elesize * elenum)

-- For a positive element size and a positive number of elements with room for the sentinel slot,
-- the constructor of `wr_pool` returns a sound pool with every work request free in order, of the
-- sizes and over the region given.
pub construct_free :
    (elesize elenum : ℕ) (bases : Bases)
    → 0 < elesize
    → 0 < elenum
    → elenum + 1 < 2 ^ 32
    → Built elesize elenum bases
unfolding construct members initial_buffers
construct_free elesize elenum bases hs hn h =
    let (p, filled, f, shape) =
      fill_from-Filled elenum 0 (members elesize elenum bases) (omega arith)
        (members-Filled elesize elenum bases h) in
    let f : Filled elenum p = subst (λ k. Filled k p) (omega arith) f in
    let size : p.elenum ≡ elenum = shape.elenum_eq in
    let rear_eq = rear-eq elenum p f in
    let room : elenum < p.rqnum = omega (arith, f.rqnum_eq, size) in
    let rear_lt : p.rq.rear < p.rqnum =
      rw rear_eq (offset-lt p.rqnum p.rq.front elenum f.holds.front_lt (omega arith)) in
    let slots = store_lem p.rq.slots p.rq.rear none (omega (arith, f.holds.size)) in
    let flags = store_lem p.rq_flags p.rq.rear false (omega (arith, f.flagged.size)) in
    record {
      pool = record p {
        rq = record (p.rq) { slots = put_cells p.rq.slots (set p.rq.slots.cells p.rq.rear none) };
        rq_flags = put_cells p.rq_flags (set p.rq_flags.cells p.rq.rear false);
      };
      returns =
          rw (ne→== elenum 0 (omega arith), ne→== elesize 0 (omega arith), filled, slots, flags)
            refl;
      sound = record {
        rqnum_eq = f.rqnum_eq;
        small = f.small;
        holds =
            set_rear-Holds (pointers (upto elenum)) none f.holds
              (omega (arith, length-pointers (upto elenum), length-upto elenum));
        flagged = rw (length-upto elenum, rear_eq) (Flagged-clear_rear f.flagged room);
        clear = rw (length-upto elenum) (Clear-set_rear none elenum f.clear room rear_eq);
        laid = subst (λ k. Laid k p.buffers) (sym size) f.laid;
        ids = rw size (upto-Below elenum);
      };
      elesize_eq = shape.elesize_eq;
      elenum_eq = size;
      addr_eq = shape.addr_eq;
      length_eq = shape.length_eq;
    }

-- With no elements, or elements of size 0, the constructor of `wr_pool` ends the program with
-- EINVAL.
pub construct_invalid :
    (elesize elenum : ℕ) (bases : Bases)
    → (elenum ≡ 0) ⊎ (elesize ≡ 0)
    → construct elesize elenum bases ≡ exited (errno einval)
unfolding construct
construct_invalid elesize elenum bases (inl e) = rw e refl
construct_invalid elesize elenum bases (inr e) = ground arith
