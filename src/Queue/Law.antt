-- ===== src/Queue/Law.antt =====
-- A queue of src/queue.hpp from its constructor on: runs of calls, moving, destroying, overflow.
use rfdts.Base.{
  ℕ, ◌≤◌, ◌<◌, ◌≡◌, refl, ◌∙◌, sym, ap, subst, List, [], ◌∷◌, ◌++◌, Bool, true, false, Option, none,
  some, Outcome, ok, blocked, exited, fault, ◌>>=◌, arith, Array, length, get_elem?, set,
  length-set, get_elem?-set_self, read_lem, store_lem, put_cells, pointers, length-pointers,
}
use rfdts.Ring.{step32, put_slot, take_slot}
use rfdts.Ring.Position.{offset, offset_turn}
use rfdts.Sem.Api.{SemApi}
use rfdts.Sem.Calls.{post-Counts, wait-Counts}
use rfdts.Queue.{Queue, Build, spsc, spmc, put, get, raise_flag, lower_flag}
use rfdts.Queue.Repr.{Repr, FlagsFor, get_first, get_waits, put_last}

pub data Call (A : Type 0) : Type 0 where
  puts : A → Call A
  gets : Call A

-- The promise: what the `gets` of a sequence of calls return, first in, first out.
unfoldable pub fifo : {A : Type 0} → List A → List (Call A) → Outcome (List A)
fifo q [] = ok []
fifo q (puts e ∷ cs) = fifo (q ++ e ∷ []) cs
fifo [] (gets ∷ cs) = blocked
fifo (x ∷ q) (gets ∷ cs) = fifo q cs >>= λ out. ok (x ∷ out)

-- No call of the sequence puts into a queue that holds `cap` elements.
abbrev pub Fits : {A : Type 0} → ℕ → List A → List (Call A) → Type 0
Fits cap q [] = Unit {0}
Fits cap q (puts e ∷ cs) = (length q < cap) × Fits cap (q ++ e ∷ []) cs
Fits cap [] (gets ∷ cs) = Unit {0}
Fits cap (x ∷ q) (gets ∷ cs) = Fits cap q cs

abbrev pub as_pointers : {A : Type 0} → Outcome (List A) → Outcome (List (Option A))
as_pointers (ok xs) = ok (pointers xs)
as_pointers blocked = blocked
as_pointers (exited e) = exited e
as_pointers fault = fault

as_pointers-cons :
    {A : Type 0} (x : A) (o : Outcome (List A))
    → (as_pointers o >>= λ out. ok (some x ∷ out)) ≡ as_pointers (o >>= λ out. ok (x ∷ out))
as_pointers-cons x (ok xs) = refl
as_pointers-cons x blocked = refl
as_pointers-cons x (exited e) = refl
as_pointers-cons x fault = refl

-- At a full ring, `put` raises the flag at the front and `get` lowers it.
raise-lower :
    (build : Build) (n front len : ℕ) (flags : Array Bool)
    → FlagsFor build n front len flags
    → front < n
    → (flags' : Array Bool) × (flags'' : Array Bool) × (raise_flag build flags front ≡ ok flags')
      × (lower_flag build flags' front ≡ ok flags'')
raise-lower spsc n front len flags f h = (flags, flags, refl, refl)
raise-lower spmc n front len flags f h =
    let inside : front < length flags.cells = omega (arith, f.size) in
    let cells = set flags.cells front true in
    (
      put_cells flags cells,
      put_cells flags (set cells front false),
      store_lem flags front true inside,
      rw (read_lem cells front (get_elem?-set_self flags.cells front true inside)) (
          store_lem (put_cells flags cells) front false
            (omega (arith, length-set flags.cells front true))),
    )

module _ (api : SemApi) {A : Type 0} where
  open api use {S, value_max}

  -- The same sequence of calls on the program's queue.
  unfoldable pub run : Build → Queue S A → List (Call A) → Outcome (List (Option A))
  run build p [] = ok []
  run build p (puts e ∷ cs) = put api build p (some e) >>= λ p'. run build p' cs
  run build p (gets ∷ cs) = get api build p >>= λ r. run build r.1 cs >>= λ out. ok (r.0 ∷ out)

  -- From a sound `queue<T>` whose capacity is no more than a semaphore counts, any sequence of
  -- puts and gets that never puts into a full queue returns, in both builds, exactly what a
  -- first-in-first-out list returns, a get on the empty queue waiting in both.
  pub run-fifo :
      (build : Build) (cs : List (Call A)) (p : Queue S A) (q : List A)
      → Repr api build p q
      → p.rqnum ≤ value_max
      → Fits p.rqnum q cs
      → run build p cs ≡ as_pointers (fifo q cs)
  unfolding run fifo
  run-fifo build [] p q r h f = refl
  run-fifo build (puts e ∷ cs) p q r h f =
      let done = put_last api build p q e r f.0 (omega (arith, f.0)) in
      rw done.returns (
        run-fifo build cs done.after (q ++ e ∷ []) done.sound (rw done.same h)
          (subst (λ n. Fits n (q ++ e ∷ []) cs) (sym done.same) f.1))
  run-fifo build (gets ∷ cs) p [] r h f = rw (get_waits api build p r) refl
  run-fifo build (gets ∷ cs) p (x ∷ q) r h f =
      let done = get_first api build p x q r in
      let rest =
        run-fifo build cs done.after q done.sound (rw done.same h)
          (subst (λ n. Fits n q cs) (sym done.same) f) in
      rw (done.returns, rest) (as_pointers-cons x (fifo q cs))

  pub record Overwrites (build : Build) (p : Queue S A) (e : A) : Type 0 where
    pub after_put : Queue S A
    pub after_get : Queue S A
    pub accepted : put api build p (some e) ≡ ok after_put
    pub newest : get api build after_put ≡ ok (some e, after_get)

  -- A put into a full sound `queue<T>`, which holds fewer elements than a semaphore counts, is
  -- accepted, and the next get returns the element just put and not the oldest, in both builds.
  pub overflow-Overwrites :
      (build : Build) (p : Queue S A) (q : List A) (e : A)
      → Repr api build p q
      → length q ≡ p.rqnum
      → length q < value_max
      → Overwrites build p e
  unfolding put get put_slot take_slot
  overflow-Overwrites build p q e r full below =
      let rear_eq : p.rq.rear ≡ p.rq.front =
        r.holds.rear_eq
        ∙ ap (offset p.rqnum p.rq.front) (length-pointers q ∙ full)
        ∙ offset_turn p.rqnum p.rq.front r.holds.front_lt in
      let inside : p.rq.rear < length p.rq.slots.cells =
        omega (arith, r.holds.size, r.holds.front_lt) in
      let (flags, flags', raised, lowered) =
        raise-lower build p.rqnum p.rq.front (length q) p.rq_flags r.flags r.holds.front_lt in
      let (count, posted, counts) = post-Counts api p.count (length q) r.counts below in
      let (count', waited, counts') = wait-Counts api count (length q) (record {
        handle = counts.handle;
        live = counts.live;
        value_eq = omega (arith, counts.value_eq);
      }) in
      let cells = set p.rq.slots.cells p.rq.rear (some e) in
      let stored = store_lem p.rq.slots p.rq.rear (some e) inside in
      let there : get_elem? cells p.rq.front ≡ some (some e) =
        ap (get_elem? cells) (sym rear_eq)
        ∙ get_elem?-set_self p.rq.slots.cells p.rq.rear (some e) inside in
      let cleared =
        store_lem (put_cells p.rq.slots cells) p.rq.front none
          (omega (arith, length-set p.rq.slots.cells p.rq.rear (some e), rear_eq)) in
      record {
        after_put = record {
          rqnum = p.rqnum;
          rq = record {
            slots = put_cells p.rq.slots cells;
            front = p.rq.front;
            rear = step32 p.rqnum p.rq.rear;
          };
          rq_flags = flags;
          count = count;
        };
        after_get = record {
          rqnum = p.rqnum;
          rq = record {
            slots = put_cells p.rq.slots (set cells p.rq.front none);
            front = step32 p.rqnum p.rq.front;
            rear = step32 p.rqnum p.rq.rear;
          };
          rq_flags = flags';
          count = count';
        };
        accepted = rw (stored, ap (raise_flag build p.rq_flags) rear_eq, raised, posted) refl;
        newest = rw (waited, lowered, read_lem cells p.rq.front there, cleared) refl;
      }
