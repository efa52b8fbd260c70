-- ===== src/WrPool/Race.antt =====
-- Two threads in `put` of src/wr_pool.hpp beside one in `get`. `put` is cut into its accesses to what
-- the threads share: it chooses the flag by one load of `rear`, and the slot by a later one.
pub mod Runs
pub mod Lost
mod Tests
use rfdts.Base.{
  ℕ, ◌≡◌, List, [], ◌∷◌, ◌++◌, Bool, true, false, Option, none, some, Outcome, ok, Array, load,
  store,
}
use rfdts.Ring.{step64}
use rfdts.WrPool.{WrPool, get}

-- Where a writer stands, with the local variables that are live there.
pub data WriterPc : Type 0 where
  resting : WriterPc
  chose : (flag e : ℕ) → WriterPc  -- before the compare-and-exchange
  claimed : (e : ℕ) → WriterPc  -- past the loop
  located : (rear e : ℕ) → WriterPc
  stored : (rear e : ℕ) → WriterPc

abbrev pub set_flags : WrPool → Array Bool → WrPool
set_flags p flags = record p { rq_flags = flags }

abbrev pub set_slots : WrPool → Array (Option ℕ) → WrPool
set_slots p slots = record p { rq = record (p.rq) { slots = slots } }

abbrev pub set_rear : WrPool → ℕ → WrPool
set_rear p rear = record p { rq = record (p.rq) { rear = rear } }

-- One step of a writer, which takes up a work request that the users hold.
pub data WriterMove (p : WrPool) (held : List ℕ)
    : WriterPc → WrPool → WriterPc → List ℕ → Type 0 where
  choose :
      (before after : List ℕ) (e : ℕ)
      → held ≡ before ++ e ∷ after
      → WriterMove p held resting p (chose p.rq.rear e) (before ++ after)
  fail :
      {i e : ℕ}
      → load p.rq_flags i ≡ ok true
      → WriterMove p held (chose i e) p (chose p.rq.rear e) held
  claim :
      {i e : ℕ} {flags : Array Bool}
      → load p.rq_flags i ≡ ok false
      → store p.rq_flags i true ≡ ok flags
      → WriterMove p held (chose i e) (set_flags p flags) (claimed e) held
  locate : {e : ℕ} → WriterMove p held (claimed e) p (located p.rq.rear e) held
  store_slot :
      {r e : ℕ} {slots : Array (Option ℕ)}
      → store p.rq.slots r (some e) ≡ ok slots
      → WriterMove p held (located r e) (set_slots p slots) (stored r e) held
  publish_rear :
      {r e : ℕ} → WriterMove p held (stored r e) (set_rear p (step64 p.rqnum r)) resting held

pub record System : Type 0 where
  pub pool : WrPool
  pub first : WriterPc
  pub second : WriterPc
  pub held : List ℕ

abbrev pub system : WrPool → WriterPc → WriterPc → List ℕ → System
system p a b held = record { pool = p; first = a; second = b; held = held }

-- The reader's `get` is one step: it meets no other reader.
pub data Step (s : System) : System → Type 0 where
  takes :
      {x : ℕ} {p : WrPool}
      → get s.pool ≡ ok (some x, p)
      → Step s (system p s.first s.second (x ∷ s.held))
  first_writes :
      {p : WrPool} {c : WriterPc} {held : List ℕ}
      → WriterMove s.pool s.held s.first p c held
      → Step s (system p c s.second held)
  second_writes :
      {p : WrPool} {c : WriterPc} {held : List ℕ}
      → WriterMove s.pool s.held s.second p c held
      → Step s (system p s.first c held)

pub data Reach (s : System) : System → Type 0 where
  start : Reach s s
  later : {t u : System} → Reach s t → Step t u → Reach s u
