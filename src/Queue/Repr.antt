-- ===== src/Queue/Repr.antt =====
-- `put` and `get` of src/queue.hpp against a first-in-first-out queue.
use rfdts.Base.{
  ℕ, suc, ◌+◌, ◌^◌, ◌<◌, ◌≡◌, refl, ◌∙◌, ap, List, [], ◌∷◌, ◌++◌, Bool, true, false, none, some, ok,
  blocked, arith, Array, length, set, length-append, read_lem, store_lem, put_cells, pointers,
  length-pointers, pointers-append,
}
use rfdts.Ring.{step32}
use rfdts.Ring.Position.{offset, offset-lt, step32_lem}
use rfdts.Ring.Holds.{Holds, put_slot-Holds, take_slot-Holds}
use rfdts.Ring.Flagged.{Flagged, Flagged-put, Flagged-take, front_flag}
use rfdts.Sem.Api.{SemApi}
use rfdts.Sem.Calls.{Counts, post-Counts, wait-Counts, wait_blocks}
use rfdts.Queue.{Queue, Build, spsc, spmc, put, get, raise_flag, lower_flag}

abbrev pub FlagsFor : Build → ℕ → ℕ → ℕ → Array Bool → Type 0
FlagsFor spsc n front len flags = Unit {0}
FlagsFor spmc n front len flags = Flagged n front len flags

raise_flag-FlagsFor :
    (build : Build) (n front len : ℕ) (flags : Array Bool)
    → FlagsFor build n front len flags
    → front < n
    → len < n
    → (flags' : Array Bool) × (raise_flag build flags (offset n front len) ≡ ok flags')
      × FlagsFor build n front (len + 1) flags'
raise_flag-FlagsFor spsc n front len flags f w h = (flags, refl, tt)
raise_flag-FlagsFor spmc n front len flags f w h = (
  put_cells flags (set flags.cells (offset n front len) true),
  store_lem flags (offset n front len) true (omega (arith, f.size, offset-lt n front len w)),
  Flagged-put f h,
)

lower_flag-FlagsFor :
    (build : Build) (n front len : ℕ) (flags : Array Bool)
    → FlagsFor build n front (suc len) flags
    → (flags' : Array Bool) × (lower_flag build flags front ≡ ok flags')
      × FlagsFor build n (offset n front 1) len flags'
lower_flag-FlagsFor spsc n front len flags f = (flags, refl, tt)
lower_flag-FlagsFor spmc n front len flags f = (
  put_cells flags (set flags.cells front false),
  rw (read_lem flags.cells front (front_flag f (omega arith)))
      (store_lem flags front false (omega (arith, f.size, f.front_lt))),
  Flagged-take f,
)

module _ (api : SemApi) {A : Type 0} where
  open api use {S, value_max}

  -- The queue holds pointers to the elements of `q`, the oldest first.
  pub record Repr (build : Build) (p : Queue S A) (q : List A) : Type 0 where
    pub small : p.rqnum < 2 ^ 32
    pub holds : Holds p.rqnum p.rq (pointers q)
    pub flags : FlagsFor build p.rqnum p.rq.front (length q) p.rq_flags
    pub counts : Counts api p.count (length q)

  pub record Got (build : Build) (p : Queue S A) (x : A) (q : List A) : Type 0 where
    pub after : Queue S A
    pub returns : get api build p ≡ ok (some x, after)
    pub sound : Repr build after q
    pub same : after.rqnum ≡ p.rqnum

  -- `get` returns the oldest element, in both builds.
  pub get_first :
      (build : Build) (p : Queue S A) (x : A) (q : List A) → Repr build p (x ∷ q) → Got build p x q
  unfolding get
  get_first build p x q r =
      let (count, waited, counts) = wait-Counts api p.count (length q) r.counts in
      let (flags, lowered, flags_ok) =
        lower_flag-FlagsFor build p.rqnum p.rq.front (length q) p.rq_flags r.flags in
      let step = step32_lem p.rqnum p.rq.front r.holds.front_lt r.small in
      let (taken, held) =
        take_slot-Holds none (step32 p.rqnum) (some x) (pointers q) r.holds step in
      record {
        after = record {
          rqnum = p.rqnum;
          rq = record {
            slots = put_cells p.rq.slots (set p.rq.slots.cells p.rq.front none);
            front = step32 p.rqnum p.rq.front;
            rear = p.rq.rear;
          };
          rq_flags = flags;
          count = count;
        };
        returns = rw (waited, lowered, taken) refl;
        sound = record { small = r.small; holds = held; flags = rw step flags_ok; counts = counts };
        same = refl;
      }

  -- On an empty queue `get` waits.
  pub get_waits : (build : Build) (p : Queue S A) → Repr build p [] → get api build p ≡ blocked
  unfolding get
  get_waits build p r = rw (wait_blocks api p.count r.counts) refl

  pub record Put (build : Build) (p : Queue S A) (q : List A) (e : A) : Type 0 where
    pub after : Queue S A
    pub returns : put api build p (some e) ≡ ok after
    pub sound : Repr build after (q ++ e ∷ [])
    pub same : after.rqnum ≡ p.rqnum

  -- `put` appends, while the ring has a free slot.
  pub put_last :
      (build : Build) (p : Queue S A) (q : List A) (e : A)
      → Repr build p q
      → length q < p.rqnum
      → length q < value_max
      → Put build p q e
  unfolding put
  put_last build p q e r room below =
      let rear_eq : p.rq.rear ≡ offset p.rqnum p.rq.front (length q) =
        r.holds.rear_eq ∙ ap (offset p.rqnum p.rq.front) (length-pointers q) in
      let rear_lt : p.rq.rear < p.rqnum =
        rw rear_eq (offset-lt p.rqnum p.rq.front (length q) r.holds.front_lt (omega arith)) in
      let step = step32_lem p.rqnum p.rq.rear rear_lt r.small in
      let (stored, held) =
        put_slot-Holds (step32 p.rqnum) (pointers q) (some e) r.holds
          (omega (arith, length-pointers q)) step in
      let (flags, raised, flags_ok) =
        raise_flag-FlagsFor build p.rqnum p.rq.front (length q) p.rq_flags r.flags r.holds.front_lt
          room in
      let (count, posted, counts) = post-Counts api p.count (length q) r.counts below in
      let one_more : length (q ++ e ∷ []) ≡ length q + 1 = length-append q (e ∷ []) in
      record {
        after = record {
          rqnum = p.rqnum;
          rq = record {
            slots = put_cells p.rq.slots (set p.rq.slots.cells p.rq.rear (some e));
            front = p.rq.front;
            rear = step32 p.rqnum p.rq.rear;
          };
          rq_flags = flags;
          count = count;
        };
        returns = rw (stored, rear_eq) (rw (raised, posted) refl);
        sound = record {
          small = r.small;
          holds = rw (pointers-append q (e ∷ [])) held;
          flags = rw one_more flags_ok;
          counts = rw one_more counts;
        };
        same = refl;
      }
