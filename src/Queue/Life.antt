-- ===== src/Queue/Life.antt =====
-- The constructor, the move constructor and the destructor of src/queue.hpp.
use rfdts.Base.{
  ℕ, zero, suc, ◌+◌, ◌^◌, ◌≤◌, ◌<◌, ◌≡◌, refl, ◌≢◌, ◌∙◌, ap, List, [], false, Option, none, ok,
  blocked, arith, length, length-replicate, set-replicate, allocate, null, ◌==◌, if◌then◌else◌,
  ne→==, store, store_lem,
}
use rfdts.Ring.Holds.{Holds-nil}
use rfdts.Ring.Flagged.{Flagged-nil}
use rfdts.Sem.Api.{SemApi}
use rfdts.Sem.Calls.{unnamed-Counts, getvalue-Counts}
use rfdts.Queue.{
  Queue, Build, spsc, spmc, construct, clear_from, initial_flags, move, destroy, get_rq_elenum,
}
use rfdts.Queue.Repr.{Repr, FlagsFor}

store_same :
    {A : Type 0} (base n i : ℕ) (a : A)
    → i < n
    → store (allocate base n a) i a ≡ ok (allocate base n a)
store_same base n i a h =
    store_lem (allocate base n a) i a (omega (arith, length-replicate n a))
    ∙ ap (λ xs. ok (record { base = base; cells = xs })) (set-replicate n i a)

clear_from_lem :
    {A : Type 0} (build : Build) (rounds i n rb fb : ℕ)
    → i + rounds ≤ n
    → clear_from {A = A} build rounds i (allocate rb n none) (initial_flags build fb n)
      ≡ ok (allocate rb n none, initial_flags build fb n)
unfolding clear_from
clear_from_lem {A} build zero i n rb fb h = refl
clear_from_lem {A} spsc (suc rounds) i n rb fb h =
    rw (store_same {A = Option A} rb n i none (omega arith))
      (clear_from_lem spsc rounds (i + 1) n rb fb (omega arith))
clear_from_lem {A} spmc (suc rounds) i n rb fb h =
    rw (store_same {A = Option A} rb n i none (omega arith), store_same fb n i false (omega arith))
      (clear_from_lem spmc rounds (i + 1) n rb fb (omega arith))

initial-FlagsFor :
    (build : Build) (fb n : ℕ) → 0 < n → FlagsFor build n 0 0 (initial_flags build fb n)
initial-FlagsFor spsc fb n h = tt
initial-FlagsFor spmc fb n h = Flagged-nil n fb h

module _ (api : SemApi) (A : Type 0) where
  open api use {S}

  pub record Built (build : Build) (rqnum rq_base flags_base : ℕ) : Type 0 where
    pub queue : Queue S A
    pub returns : construct api {A = A} build rqnum rq_base flags_base ≡ ok queue
    pub sound : Repr api build queue []
    pub rqnum_eq : queue.rqnum ≡ rqnum
    pub addr_eq : queue.rq.slots.base ≡ rq_base

  -- The constructor returns an empty queue of the capacity computed, if that is not 0.
  pub construct_empty :
      (build : Build) (rqnum rq_base flags_base : ℕ)
      → 0 < rqnum
      → rqnum < 2 ^ 32
      → Built build rqnum rq_base flags_base
  unfolding construct
  construct_empty build rqnum rq_base flags_base h w =
      let (count, made, counts) = unnamed-Counts api 0 (omega arith) in
      record {
        queue = record {
          rqnum = rqnum;
          rq = record { slots = allocate rq_base rqnum none; front = 0; rear = 0 };
          rq_flags = initial_flags build flags_base rqnum;
          count = count;
        };
        returns =
            rw
              (
                made,
                ne→== rqnum 0 (omega arith),
                clear_from_lem build rqnum 0 rqnum rq_base flags_base (omega arith),
              )
              refl;
        sound = record {
          small = w;
          holds = Holds-nil rqnum rq_base none h;
          flags = initial-FlagsFor build flags_base rqnum h;
          counts = counts;
        };
        rqnum_eq = refl;
        addr_eq = refl;
      }

module _ (api : SemApi) {A : Type 0} where
  open api use {S, value_max}

  -- `get_rq_elenum` is the number of elements.
  pub elenum-length :
      (build : Build) (p : Queue S A) (q : List A)
      → Repr api build p q
      → get_rq_elenum api p ≡ ok (length q)
  unfolding get_rq_elenum
  elenum-length build p q r = getvalue-Counts api p.count (length q) r.counts

  -- The destructor of a sound live `queue<T>` frees the blocks if it is empty, and otherwise
  -- waits.
  pub destroy_emptied :
      (build : Build) (p : Queue S A) (q : List A)
      → Repr api build p q
      → p.rq.slots.base ≢ 0
      → destroy api p ≡ (
          if length q == 0
          then ok (record p { rq = record (p.rq) { slots = null }; rq_flags = null })
          else blocked)
  unfolding destroy
  destroy_emptied build p q r live =
      rw (ne→== p.rq.slots.base 0 live, getvalue-Counts api p.count (length q) r.counts) refl

  pub record Moved (build : Build) (p : Queue S A) (q : List A) : Type 0 where
    pub new_queue : Queue S A
    pub old_queue : Queue S A
    pub returns : move api p ≡ ok (new_queue, old_queue)
    pub sound : Repr api build new_queue q
    pub released : destroy api old_queue ≡ ok old_queue

  -- The move constructor of `queue<T>` yields a sound queue with the same elements and a
  -- semaphore of its own, and leaves the old one nothing to free.
  pub move_kept :
      (build : Build) (p : Queue S A) (q : List A)
      → Repr api build p q
      → length q ≤ value_max
      → Moved build p q
  unfolding move destroy
  move_kept build p q r h =
      let (count, made, counts) = unnamed-Counts api (length q) h in
      record {
        new_queue = record p { count = count };
        old_queue = record p { rq = record (p.rq) { slots = null }; rq_flags = null };
        returns = rw (getvalue-Counts api p.count (length q) r.counts, made) refl;
        sound = record { small = r.small; holds = r.holds; flags = r.flags; counts = counts };
        released = refl;
      }
