-- ===== src/MemPool/SpscAtomic/Threads/Writer.antt =====
-- Every step of the writer keeps the invariant.
use mathlib.Core.List.{Perm, perm_middle, append_assoc}
use mathlib.Core.List.Perm
use rfdts.Base.{
  ℕ, ◌<◌, ◌≡◌, refl, subst, List, [], ◌∷◌, ◌++◌, Option, some, ok, arith, length, get_elem?, set,
  length-append, get_elem?-set_self, set-get_elem?, store, store_lem, Array, put_cells, pointers,
  length-pointers, pointers-append, upto,
}
use rfdts.Ring.{Ring, step64}
use rfdts.Ring.Position.{offset, offset-lt, step64_lem}
use rfdts.Ring.Holds.{Holds, set_rear-Holds, put_slot-Holds}
use rfdts.MemPool.SpscAtomic.{SpscAtomicMemPool}
use rfdts.MemPool.SpscAtomic.Threads.{
  ReaderPc, outside, got_front, may_read, fetched, cleared, published, WriterPc, resting, storing,
  stored, WriterMove, load_rear, store_slot, publish_rear, set_slots, set_rear,
}
use rfdts.MemPool.SpscAtomic.Threads.Inv.{front_of, seen, taken, Reading, Inv, free-le, rear-eq}

moved_last : (q xs ys : List ℕ) (e : ℕ) → Perm ((q ++ e ∷ []) ++ (xs ++ ys)) (q ++ (xs ++ e ∷ ys))
moved_last q xs ys e = rw append_assoc (Perm.append_left q (Perm.symm (perm_middle xs ys)))

Reading-append :
    (c : ReaderPc) (front e : ℕ) (q : List ℕ) → Reading c front q → Reading c front (q ++ e ∷ [])
Reading-append outside front e q k = tt
Reading-append (got_front f) front e q k = k
Reading-append (may_read f) front e q k = (k.0, omega (arith, length-append q (e ∷ []), k.1))
Reading-append (fetched f temp) front e q k =
    let (x, rest, q_eq, temp_eq) = k.1 in (k.0, (x, rest ++ e ∷ [], rw q_eq refl, temp_eq))
Reading-append (cleared f temp) front e q k = k
Reading-append (published temp) front e q k = k

-- A store at `rear` that is already there is published by moving `rear` on.
publish-Holds :
    (step : ℕ → ℕ) (n e : ℕ) (r : Ring (Option ℕ)) (q : List ℕ)
    → Holds n r (pointers q)
    → length q < n
    → step r.rear ≡ offset n r.rear 1
    → get_elem? r.slots.cells r.rear ≡ some (some e)
    → Holds n (record r { rear = step r.rear }) (pointers (q ++ e ∷ []))
publish-Holds step n e r q h room steps there =
    let (put, held) =
      put_slot-Holds step (pointers q) (some e) h (omega (arith, length-pointers q)) steps in
    rw (pointers-append q (e ∷ [])) (
      subst
        (λ xs.
          Holds n (record r { slots = put_cells r.slots xs; rear = step r.rear })
            (pointers q ++ some e ∷ []))
        (set-get_elem? r.slots.cells r.rear (some e) there) held)

module _ (size : ℕ) (p : SpscAtomicMemPool) (c : ReaderPc) where
  load_rear-Inv :
      (held before after : List ℕ) (e : ℕ)
      → Inv size p c resting held
      → held ≡ before ++ e ∷ after
      → Inv size p c (storing p.ringqueue.rear e) (before ++ after)
  load_rear-Inv held before after e inv h = record {
    free = inv.free;
    size_eq = inv.size_eq;
    rqnum_eq = inv.rqnum_eq;
    small = inv.small;
    holds = inv.holds;
    laid = inv.laid;
    reading = inv.reading;
    writing = refl;
    whole =
        Perm.trans
          (Perm.append_left inv.free
            (Perm.append_left (taken c) (Perm.symm (perm_middle before after))))
          (subst (λ z. Perm (inv.free ++ (taken c ++ z)) (upto size)) h inv.whole);
  }

  store_slot-Inv :
      (held : List ℕ) (k e : ℕ) (slots : Array (Option ℕ))
      → Inv size p c (storing k e) held
      → store p.ringqueue.slots k (some e) ≡ ok slots
      → Inv size (set_slots p slots) c (stored k e) held
  store_slot-Inv held k e slots inv s =
      let r = p.ringqueue in
      let room : length inv.free < p.rqnum = omega (arith, free-le inv, inv.rqnum_eq) in
      let k_lt : r.rear < length r.slots.cells = rw (rear-eq inv) (
        omega (
          arith,
          inv.holds.size,
          offset-lt p.rqnum (front_of c p.rqnum r.front) (length inv.free) inv.holds.front_lt,
        )) in
      let stored_eq = store_lem r.slots r.rear (some e) k_lt in
      let k_eq : k ≡ r.rear = inv.writing in
      let slots_eq : put_cells r.slots (set r.slots.cells r.rear (some e)) ≡ slots = cc in
      record {
        free = inv.free;
        size_eq = inv.size_eq;
        rqnum_eq = inv.rqnum_eq;
        small = inv.small;
        holds =
            subst (λ a. Holds p.rqnum (seen c p.rqnum (record r { slots = a })) (pointers inv.free))
              slots_eq
              (set_rear-Holds (pointers inv.free) (some e) inv.holds
                (omega (arith, length-pointers inv.free)));
        laid = inv.laid;
        reading = inv.reading;
        writing = (
          k_eq,
          subst (λ a. get_elem? a.cells k ≡ some (some e)) slots_eq
              (rw k_eq (get_elem?-set_self r.slots.cells r.rear (some e) k_lt)),
        );
        whole = inv.whole;
      }

  publish_rear-Inv :
      (held : List ℕ) (k e : ℕ)
      → Inv size p c (stored k e) held
      → Inv size (set_rear p (step64 p.rqnum k)) c resting held
  publish_rear-Inv held k e inv =
      let r = p.ringqueue in
      let k_eq : k ≡ r.rear = inv.writing.0 in
      let there : get_elem? r.slots.cells r.rear ≡ some (some e) =
        subst (λ j. get_elem? r.slots.cells j ≡ some (some e)) k_eq inv.writing.1 in
      let room : length inv.free < p.rqnum = omega (arith, free-le inv, inv.rqnum_eq) in
      let rear_lt : r.rear < p.rqnum = rw (rear-eq inv) (
        offset-lt p.rqnum (front_of c p.rqnum r.front) (length inv.free) inv.holds.front_lt
          (omega arith)) in
      record {
        free = inv.free ++ e ∷ [];
        size_eq = inv.size_eq;
        rqnum_eq = inv.rqnum_eq;
        small = inv.small;
        holds = rw k_eq (
            publish-Holds (step64 p.rqnum) p.rqnum e (seen c p.rqnum r) inv.free inv.holds room
              (step64_lem p.rqnum r.rear rear_lt inv.small) there);
        laid = inv.laid;
        reading = Reading-append c r.front e inv.free inv.reading;
        writing = tt;
        whole = Perm.trans (moved_last inv.free (taken c) held e) inv.whole;
      }

pub WriterMove-Inv :
    {size : ℕ} {p p' : SpscAtomicMemPool} {c : ReaderPc} {w w' : WriterPc} {held held' : List ℕ}
    → WriterMove p held w p' w' held'
    → Inv size p c w held
    → Inv size p' c w' held'
WriterMove-Inv {size} {p} {c = c} {held = held} (load_rear before after e h) inv =
    load_rear-Inv size p c held before after e inv h
WriterMove-Inv {size} {p} {c = c} {held = held} (store_slot {r} {e} {slots} s) inv =
    store_slot-Inv size p c held r e slots inv s
WriterMove-Inv {size} {p} {c = c} {held = held} (publish_rear {r} {e}) inv =
    publish_rear-Inv size p c held r e inv
