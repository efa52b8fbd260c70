-- ===== src/WrPool/Race/Runs.antt =====
-- Runs of one thread of src/wr_pool.hpp with no step of another between its own.
use rfdts.Base.{
  ℕ, ◌<◌, ◌≡◌, refl, List, ◌∷◌, ◌++◌, Bool, true, false, Option, none, some, ok, Array, load, store,
  store_lem, read_lem, put_cells, set, length, get_elem?,
}
use rfdts.Ring.{step32, step64, take_slot}
use rfdts.Buffers.{Buffers}
use rfdts.Buffers.Layout.{Laid, stamp-Laid}
use rfdts.WrPool.{WrPool, get}
use rfdts.WrPool.Race.{
  WriterPc, resting, set_flags, set_slots, set_rear, choose, claim, locate, store_slot,
  publish_rear, System, system, first_writes, Reach, later,
}

-- The first writer's `put`, with no step of another thread between its own.
pub first_puts :
    {s : System} (p : WrPool) (w : WriterPc) (before after : List ℕ) (e : ℕ) {flags : Array Bool}
    {slots : Array (Option ℕ)}
    → load p.rq_flags p.rq.rear ≡ ok false
    → store p.rq_flags p.rq.rear true ≡ ok flags
    → store p.rq.slots p.rq.rear (some e) ≡ ok slots
    → Reach s (system p resting w (before ++ e ∷ after))
    → Reach s (
        system
          (set_rear (set_slots (set_flags p flags) slots) (step64 p.rqnum p.rq.rear))
          resting
          w
          (before ++ after))
first_puts p w before after e clear raised kept r =
    later
      (later
        (later
          (later (later r (first_writes (choose before after e refl)))
            (first_writes (claim clear raised)))
          (first_writes locate))
        (first_writes (store_slot kept)))
      (first_writes publish_rear)

-- A `get` that finds `x` at the front.
pub record Taken (p : WrPool) (x : ℕ) : Type 0 where
  pub buffers : Buffers
  pub laid : Laid p.elenum buffers
  pub elenum_eq : buffers.elenum ≡ p.elenum
  pub returns :
      get p
      ≡ ok (
        some x,
        record p {
          buffers = buffers;
          rq = record (p.rq) {
            slots = put_cells p.rq.slots (set p.rq.slots.cells p.rq.front none);
            front = step32 p.rqnum p.rq.front;
          };
          rq_flags = put_cells p.rq_flags (set p.rq_flags.cells p.rq.front false);
        },
      )

pub get-Taken :
    (p : WrPool) (x : ℕ)
    → get_elem? p.rq.slots.cells p.rq.front ≡ some (some x)
    → p.rq.front < length p.rq.slots.cells
    → p.rq.front < length p.rq_flags.cells
    → Laid p.elenum p.buffers
    → x < p.elenum
    → Taken p x
unfolding get take_slot
get-Taken p x there inside in_flags laid below =
    let (b, stamped, shape, laid', id, wr) = stamp-Laid p.elenum p.buffers x below laid in
    record {
      buffers = b;
      laid = laid';
      elenum_eq = shape.elenum_eq;
      returns =
          rw
            (
              read_lem p.rq.slots.cells p.rq.front there,
              store_lem p.rq.slots p.rq.front none inside,
              store_lem p.rq_flags p.rq.front false in_flags,
              stamped,
            )
            refl;
    }
