-- ===== src/MemPool/SpscAtomic/Life.antt =====
-- `spsc_atomic_mem_pool` of src/mem_pool.hpp: constructing, moving and destroying.
use rfdts.Base.{
  ℕ, zero, suc, ◌+◌, ◌^◌, ◌≤◌, ◌<◌, ◌≡◌, refl, ◌≢◌, sym, subst, List, [], ◌∷◌, ◌++◌, Option, none,
  some, ok, blocked, fault, arith, length, set, upto, length-upto, upto-Below, pointers,
  length-pointers, pointers-append, put_cells, store_lem, ◌==◌, if◌then◌else◌, ne→==, store_fault,
}
use native.Mathlib.Numerals.{add-one}
use rfdts.Base.Words.{u32}
use rfdts.Ring.{step32, put_slot}
use rfdts.Ring.Position.{step32_lem}
use rfdts.Ring.Holds.{Holds, Holds-nil, put_slot-Holds}
use rfdts.Buffers.{Bases, initial_buffers}
use rfdts.Buffers.Layout.{
  Laid, SameShape, SameShape-refl, SameShape-trans, initial-Laid, prepare-Laid,
}
use rfdts.MemPool.SpscAtomic.{
  SpscAtomicMemPool, set_send, members, fill, fill_from, construct, put, move, free_num, destroy,
  emptied,
}
use rfdts.MemPool.SpscAtomic.Repr.{Repr, rear-eq}

-- The pool after `i` rounds of the loop.
record Filled (i : ℕ) (p : SpscAtomicMemPool) : Type 0 where
  rqnum_eq : p.rqnum ≡ p.elenum + 1
  small : p.rqnum < 2 ^ 32
  at_start : p.ringqueue.front ≡ 0
  holds : Holds p.rqnum p.ringqueue (pointers (upto i))
  laid : Laid i p.buffers

members-Filled :
    (elesize elenum : ℕ) (bases : Bases)
    → elenum + 1 < 2 ^ 32
    → Filled 0 (members elesize elenum bases)
unfolding members initial_buffers
members-Filled elesize elenum bases w = record {
  rqnum_eq = ground arith;
  small = ground arith;
  at_start = refl;
  holds = Holds-nil (u32 (elenum + 1)) bases.rq_base none (ground arith);
  laid = initial-Laid elesize elenum bases;
}

fill-Filled :
    (i : ℕ) (p : SpscAtomicMemPool)
    → i < p.elenum
    → Filled i p
    → (p' : SpscAtomicMemPool) × (fill p i ≡ ok p')
      × Filled (suc i) p'
      × SameShape p.buffers p'.buffers
unfolding fill put_slot
fill-Filled i p h f =
    let (b, prepared, shape, laid, id) = prepare-Laid set_send p.buffers i h f.laid in
    let room : length (pointers (upto i)) < p.rqnum =
      omega (arith, length-pointers (upto i), length-upto i, f.rqnum_eq) in
    let rear_is : p.ringqueue.rear ≡ i =
      ground
        (arith, f.holds.rear_eq, f.at_start, length-pointers (upto i), length-upto i, f.rqnum_eq) in
    let step = step32_lem p.rqnum p.ringqueue.rear (omega (arith, rear_is, f.rqnum_eq)) f.small in
    let (stored, held) =
      put_slot-Holds (step32 p.rqnum) (pointers (upto i)) (some i) f.holds room step in
    (
      record p {
        buffers = b;
        ringqueue = record (p.ringqueue) {
          slots = put_cells p.ringqueue.slots (set p.ringqueue.slots.cells i (some i));
          rear = step32 p.rqnum p.ringqueue.rear;
        };
      },
      rw
          (
            prepared,
            store_lem p.ringqueue.slots i (some i) (omega (arith, f.holds.size, f.rqnum_eq)),
          )
          refl,
      record {
        rqnum_eq = rw (shape.elenum_eq) f.rqnum_eq;
        small = f.small;
        at_start = f.at_start;
        holds = rw (pointers-append (upto i) (i ∷ [])) (
            subst
              (λ k.
                Holds p.rqnum
                  (record (p.ringqueue) {
                    slots = put_cells p.ringqueue.slots (set p.ringqueue.slots.cells k (some i));
                    rear = step32 p.rqnum p.ringqueue.rear;
                  })
                  (pointers (upto i) ++ some i ∷ []))
              rear_is held);
        laid = laid;
      },
      shape,
    )

fill_from-Filled :
    (rounds i : ℕ) (p : SpscAtomicMemPool)
    → i + rounds ≤ p.elenum
    → Filled i p
    → (p' : SpscAtomicMemPool) × (fill_from rounds i p ≡ ok p')
      × Filled (i + rounds) p'
      × SameShape p.buffers p'.buffers
unfolding fill_from
fill_from-Filled zero i p h f =
    (p, refl, subst (λ k. Filled k p) (omega arith) f, SameShape-refl p.buffers)
fill_from-Filled (suc rounds) i p h f =
    let (p', filled, f', shape) = fill-Filled i p (omega arith) f in
    let (p'', finished, f'', shape') =
      fill_from-Filled rounds (i + 1) p' (omega (arith, shape.elenum_eq)) (rw add-one f') in
    (
      p'',
      rw filled finished,
      subst (λ k. Filled k p'') (omega arith) f'',
      SameShape-trans shape shape',
    )

-- What the constructors return: a sound pool with every work request free.
pub record Built (elesize elenum : ℕ) (bases : Bases) : Type 0 where
  pub pool : SpscAtomicMemPool
  pub returns : construct elesize elenum bases ≡ ok pool
  pub sound : Repr pool (upto elenum)
  pub elenum_eq : pool.elenum ≡ elenum
  pub addr_eq : pool.addr ≡ bases.addr_base

-- The constructors of `spsc_atomic_mem_pool` return, for any number of elements below 2 ^ 32 - 1,
-- a sound pool of that many over the given region, with every work request free in order.
pub atomic_construct-Built :
    (elesize elenum : ℕ) (bases : Bases) → elenum + 1 < 2 ^ 32 → Built elesize elenum bases
unfolding construct members initial_buffers
atomic_construct-Built elesize elenum bases w =
    let (p, finished, f, shape) =
      fill_from-Filled elenum 0 (members elesize elenum bases) (omega arith)
        (members-Filled elesize elenum bases w) in
    let f : Filled elenum p = subst (λ k. Filled k p) (omega arith) f in
    let size : p.elenum ≡ elenum = shape.elenum_eq in
    record {
      pool = p;
      returns = finished;
      sound = record {
        rqnum_eq = f.rqnum_eq;
        small = f.small;
        holds = f.holds;
        laid = subst (λ k. Laid k p.buffers) (sym size) f.laid;
        ids = rw size (upto-Below elenum);
      };
      elenum_eq = size;
      addr_eq = shape.addr_eq;
    }

free_num-eq-length :
    (p : SpscAtomicMemPool) (q : List ℕ)
    → Repr p q
    → length q ≤ p.elenum
    → p.elenum < 2 ^ 31
    → free_num p ≡ length q
unfolding free_num
free_num-eq-length p q r h small = ground (arith, rear-eq p q r, r.holds.front_lt, r.rqnum_eq)

-- The destructor waits until every work request is back, and then frees the blocks, below 2 ^ 31
-- of them.
pub atomic_destroy_returned :
    (p : SpscAtomicMemPool) (q : List ℕ)
    → Repr p q
    → length q ≤ p.elenum
    → p.elenum < 2 ^ 31
    → p.addr ≢ 0
    → destroy p ≡ (if length q == p.elenum then ok (emptied p) else blocked)
unfolding destroy
atomic_destroy_returned p q r h small live =
    rw (ne→== p.addr 0 live, free_num-eq-length p q r h small) refl

-- The move constructor hands the pool over; the destructor of the old one does nothing, and a
-- later `put` on it uses a null pointer.
pub atomic_move_released :
    (p : SpscAtomicMemPool) (e : Option ℕ)
    → ((move p).0 ≡ p) × (destroy (move p).1 ≡ ok (move p).1) × (put (move p).1 e ≡ fault)
unfolding move destroy put put_slot
atomic_move_released p e =
    (refl, refl, rw (store_fault (emptied p).ringqueue.slots p.ringqueue.rear e (omega arith)) refl)
