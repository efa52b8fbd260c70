-- ===== src/MemPool/SpscAtomic/Threads/Reader.antt =====
-- Every step of the reader keeps the invariant.
use mathlib.Core.List.{Perm, perm_middle, mem-append_right, mem-cons_self}
use mathlib.Core.List.Perm
use rfdts.Base.{
  ℕ, ◌<◌, ◌≡◌, refl, ◌≢◌, ◌∙◌, sym, ap, subst, List, [], ◌∷◌, ◌++◌, Option, none, some, ok, arith,
  length, set, get_elem?-set_ne, read_lem, load, store, store_lem, Array, put_cells, pointers, upto,
}
use rfdts.Ring.{Ring, step32}
use rfdts.Ring.Position.{step32_lem}
use rfdts.Ring.Holds.{Holds, take_slot-Holds, front_elem}
use rfdts.Buffers.Layout.{Laid, stamp-Laid}
use rfdts.Buffers.{Buffers, stamp}
use rfdts.Pool.Users.{mem-upto}
use rfdts.MemPool.SpscAtomic.{SpscAtomicMemPool}
use rfdts.MemPool.SpscAtomic.Threads.{
  ReaderPc, outside, got_front, may_read, fetched, cleared, published, WriterPc, resting, storing,
  stored, ReaderMove, load_front, wait, pass, fetch, clear, publish_front, hand_out, set_slots,
  set_front, set_buffers,
}
use rfdts.MemPool.SpscAtomic.Threads.Inv.{listed, taken, given, Writing, Inv, free-le, rear-eq}

pub first : (q : List ℕ) → 0 < length q → (x : ℕ) × (rest : List ℕ) × (q ≡ x ∷ rest)
first [] h = elim h [ ]
first (x ∷ q) h = (x, q, refl)

Writing-clear :
    (w : WriterPc) (r : Ring (Option ℕ))
    → Writing w r
    → r.front ≢ r.rear
    → Writing w (record r { slots = put_cells r.slots (set r.slots.cells r.front none) })
Writing-clear resting r k d = tt
Writing-clear (storing j e) r k d = k
Writing-clear (stored j e) r k d =
    (k.0, get_elem?-set_ne r.slots.cells r.front j none (λ c. d (c ∙ k.0)) ∙ k.1)

Writing-front :
    (w : WriterPc) (r : Ring (Option ℕ)) (front : ℕ)
    → Writing w r
    → Writing w (record r { front = front })
Writing-front resting r f k = tt
Writing-front (storing j e) r f k = k
Writing-front (stored j e) r f k = k

module _ (size : ℕ) (p : SpscAtomicMemPool) (w : WriterPc) (held : List ℕ) where
  pass-Inv :
      (f : ℕ)
      → Inv size p (got_front f) w held
      → p.ringqueue.rear ≢ f
      → Inv size p (may_read f) w held
  pass-Inv f inv d = record {
    free = inv.free;
    size_eq = inv.size_eq;
    rqnum_eq = inv.rqnum_eq;
    small = inv.small;
    holds = inv.holds;
    laid = inv.laid;
    reading = (inv.reading, ground (arith, rear-eq inv, inv.holds.front_lt, inv.reading));
    writing = inv.writing;
    whole = inv.whole;
  }

  fetch-Inv :
      (f : ℕ) (temp : Option ℕ)
      → Inv size p (may_read f) w held
      → load p.ringqueue.slots f ≡ ok temp
      → Inv size p (fetched f temp) w held
  fetch-Inv f temp inv e =
      let (x, rest, q_eq) = first inv.free inv.reading.1 in
      let elem =
        front_elem (some x) (pointers rest)
          (subst (λ q. Holds p.rqnum p.ringqueue (pointers q)) q_eq inv.holds) in
      let got : load p.ringqueue.slots p.ringqueue.front ≡ ok (some x) =
        read_lem p.ringqueue.slots.cells p.ringqueue.front elem in
      let f_eq = inv.reading.0 in
      record {
        free = inv.free;
        size_eq = inv.size_eq;
        rqnum_eq = inv.rqnum_eq;
        small = inv.small;
        holds = inv.holds;
        laid = inv.laid;
        reading = (f_eq, (x, rest, q_eq, cc));
        writing = inv.writing;
        whole = inv.whole;
      }

  clear-Inv :
      (f : ℕ) (temp : Option ℕ) (slots : Array (Option ℕ))
      → Inv size p (fetched f temp) w held
      → store p.ringqueue.slots f none ≡ ok slots
      → Inv size (set_slots p slots) (cleared f temp) w held
  clear-Inv f temp slots inv e =
      let r = p.ringqueue in
      let f_eq = inv.reading.0 in
      let (x, rest, q_eq, temp_eq) = inv.reading.1 in
      let step = step32_lem p.rqnum r.front inv.holds.front_lt inv.small in
      let (taken, held') =
        take_slot-Holds none (step32 p.rqnum) (some x) (pointers rest)
          (subst (λ q. Holds p.rqnum p.ringqueue (pointers q)) q_eq inv.holds) step in
      let stored =
        store_lem r.slots r.front none (omega (arith, inv.holds.size, inv.holds.front_lt)) in
      let slots_eq : put_cells r.slots (set r.slots.cells r.front none) ≡ slots = cc in
      let apart : r.front ≢ r.rear =
        ground
          (arith, ap length q_eq, rear-eq inv, free-le inv, inv.rqnum_eq, inv.holds.front_lt) in
      record {
        free = rest;
        size_eq = inv.size_eq;
        rqnum_eq = inv.rqnum_eq;
        small = inv.small;
        holds = rw f_eq (
            subst
              (λ a.
                Holds p.rqnum (record r { slots = a; front = step32 p.rqnum r.front })
                  (pointers rest))
              slots_eq held');
        laid = inv.laid;
        reading = (f_eq, (x, temp_eq));
        writing =
            subst (λ a. Writing w (record r { slots = a })) slots_eq
              (Writing-clear w r inv.writing apart);
        whole =
            subst (λ t. Perm (rest ++ (listed t ++ (given w ++ held))) (upto size)) (sym temp_eq)
              (Perm.trans (perm_middle rest (given w ++ held))
                (subst (λ q. Perm (q ++ (given w ++ held)) (upto size)) q_eq inv.whole));
      }

  publish_front-Inv :
      (f : ℕ) (temp : Option ℕ)
      → Inv size p (cleared f temp) w held
      → Inv size (set_front p (step32 p.rqnum f)) (published temp) w held
  publish_front-Inv f temp inv = record {
    free = inv.free;
    size_eq = inv.size_eq;
    rqnum_eq = inv.rqnum_eq;
    small = inv.small;
    holds = inv.holds;
    laid = inv.laid;
    reading = inv.reading.1;
    writing = Writing-front w p.ringqueue (step32 p.rqnum f) inv.writing;
    whole = inv.whole;
  }

  hand_out-Inv :
      (x : ℕ) (b : Buffers)
      → Inv size p (published (some x)) w held
      → stamp p.buffers (some x) ≡ ok b
      → Inv size (set_buffers p b) outside w (x ∷ held)
  hand_out-Inv x b inv e =
      let x_lt : x < size =
        mem-upto size x ((Perm.mem_iff inv.whole).0 (mem-append_right inv.free mem-cons_self)) in
      let (b', stamped, shape, laid, id, wr) =
        stamp-Laid size p.buffers x (omega (arith, x_lt, inv.size_eq)) inv.laid in
      let b_eq : b' ≡ b = cc in
      record {
        free = inv.free;
        size_eq = ap (λ z. z.elenum) (sym b_eq) ∙ shape.elenum_eq ∙ inv.size_eq;
        rqnum_eq = inv.rqnum_eq;
        small = inv.small;
        holds = inv.holds;
        laid = subst (Laid size) b_eq laid;
        reading = tt;
        writing = inv.writing;
        whole = Perm.trans (Perm.append_left inv.free (perm_middle (given w) held)) inv.whole;
      }

-- Every step of the reader keeps the invariant.
pub ReaderMove-Inv :
    {size : ℕ} {p p' : SpscAtomicMemPool} {c c' : ReaderPc} {w : WriterPc} {held held' : List ℕ}
    → ReaderMove p held c p' c' held'
    → Inv size p c w held
    → Inv size p' c' w held'
ReaderMove-Inv load_front inv = record {
  free = inv.free;
  size_eq = inv.size_eq;
  rqnum_eq = inv.rqnum_eq;
  small = inv.small;
  holds = inv.holds;
  laid = inv.laid;
  reading = refl;
  writing = inv.writing;
  whole = inv.whole;
}
ReaderMove-Inv (wait e) inv = inv
ReaderMove-Inv {size} {p} {w = w} {held} (pass {f} d) inv = pass-Inv size p w held f inv d
ReaderMove-Inv {size} {p} {w = w} {held} (fetch {f} {temp} e) inv =
    fetch-Inv size p w held f temp inv e
ReaderMove-Inv {size} {p} {w = w} {held} (clear {f} {temp} {slots} e) inv =
    clear-Inv size p w held f temp slots inv e
ReaderMove-Inv {size} {p} {w = w} {held} (publish_front {f} {temp}) inv =
    publish_front-Inv size p w held f temp inv
ReaderMove-Inv {size} {p} {w = w} {held} (hand_out {x} {buffers} e) inv =
    hand_out-Inv size p w held x buffers inv e
