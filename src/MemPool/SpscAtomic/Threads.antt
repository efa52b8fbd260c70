-- ===== src/MemPool/SpscAtomic/Threads.antt =====
-- The reader and the writer of `spsc_atomic_mem_pool` in src/mem_pool.hpp as two threads: `get` and
-- `put` cut into their accesses to what both see, in any interleaving. An access takes effect at
-- once and for both.
pub mod Inv
pub mod Reader
pub mod Writer
pub mod Safety
pub mod Alone
mod Tests
use rfdts.Base.{
  ℕ, ◌≡◌, ◌≢◌, List, [], ◌∷◌, ◌++◌, Option, none, some, Outcome, ok, Array, load, store,
}
use rfdts.Ring.{Ring, step32, step64}
use rfdts.Buffers.{Buffers, stamp}
use rfdts.MemPool.SpscAtomic.{SpscAtomicMemPool}

-- Where the reader stands, with the local variables that are live there.
pub data ReaderPc : Type 0 where
  outside : ReaderPc
  got_front : (front : ℕ) → ReaderPc  -- before a load of `rear`
  may_read : (front : ℕ) → ReaderPc  -- past the loop
  fetched : (front : ℕ) → (temp : Option ℕ) → ReaderPc
  cleared : (front : ℕ) → (temp : Option ℕ) → ReaderPc
  published : (temp : Option ℕ) → ReaderPc  -- before `temp->wr_id = ++__wr_id`

-- Where the writer stands.
pub data WriterPc : Type 0 where
  resting : WriterPc
  storing : (rear e : ℕ) → WriterPc
  stored : (rear e : ℕ) → WriterPc

abbrev pub set_slots : SpscAtomicMemPool → Array (Option ℕ) → SpscAtomicMemPool
set_slots p slots = record p { ringqueue = record (p.ringqueue) { slots = slots } }

abbrev pub set_front : SpscAtomicMemPool → ℕ → SpscAtomicMemPool
set_front p front = record p { ringqueue = record (p.ringqueue) { front = front } }

abbrev pub set_rear : SpscAtomicMemPool → ℕ → SpscAtomicMemPool
set_rear p rear = record p { ringqueue = record (p.ringqueue) { rear = rear } }

abbrev pub set_buffers : SpscAtomicMemPool → Buffers → SpscAtomicMemPool
set_buffers p buffers = record p { buffers = buffers }

-- One step of the reader in `get`, which hands what it took to the users. The two lists are what
-- the users hold before it and after it.
pub data ReaderMove (p : SpscAtomicMemPool) (held : List ℕ)
    : ReaderPc → SpscAtomicMemPool → ReaderPc → List ℕ → Type 0 where
  load_front : ReaderMove p held outside p (got_front p.ringqueue.front) held
  wait : {f : ℕ} → p.ringqueue.rear ≡ f → ReaderMove p held (got_front f) p (got_front f) held
  pass : {f : ℕ} → p.ringqueue.rear ≢ f → ReaderMove p held (got_front f) p (may_read f) held
  fetch :
      {f : ℕ} {temp : Option ℕ}
      → load p.ringqueue.slots f ≡ ok temp
      → ReaderMove p held (may_read f) p (fetched f temp) held
  clear :
      {f : ℕ} {temp : Option ℕ} {slots : Array (Option ℕ)}
      → store p.ringqueue.slots f none ≡ ok slots
      → ReaderMove p held (fetched f temp) (set_slots p slots) (cleared f temp) held
  publish_front :
      {f : ℕ} {temp : Option ℕ}
      → ReaderMove p held (cleared f temp) (set_front p (step32 p.rqnum f)) (published temp) held
  hand_out :
      {x : ℕ} {buffers : Buffers}
      → stamp p.buffers (some x) ≡ ok buffers
      → ReaderMove p held (published (some x)) (set_buffers p buffers) outside (x ∷ held)

-- One step of the writer in `put`, which takes up a work request that the users hold.
pub data WriterMove (p : SpscAtomicMemPool) (held : List ℕ)
    : WriterPc → SpscAtomicMemPool → WriterPc → List ℕ → Type 0 where
  load_rear :
      (before after : List ℕ) (e : ℕ)
      → held ≡ before ++ e ∷ after
      → WriterMove p held resting p (storing p.ringqueue.rear e) (before ++ after)
  store_slot :
      {r e : ℕ} {slots : Array (Option ℕ)}
      → store p.ringqueue.slots r (some e) ≡ ok slots
      → WriterMove p held (storing r e) (set_slots p slots) (stored r e) held
  publish_rear :
      {r e : ℕ} → WriterMove p held (stored r e) (set_rear p (step64 p.rqnum r)) resting held

pub record System : Type 0 where
  pub pool : SpscAtomicMemPool
  pub reader : ReaderPc
  pub writer : WriterPc
  pub held : List ℕ

pub data Step (s : System) : System → Type 0 where
  reads :
      {p : SpscAtomicMemPool} {c : ReaderPc} {held : List ℕ}
      → ReaderMove s.pool s.held s.reader p c held
      → Step s (record s { pool = p; reader = c; held = held })
  writes :
      {p : SpscAtomicMemPool} {c : WriterPc} {held : List ℕ}
      → WriterMove s.pool s.held s.writer p c held
      → Step s (record s { pool = p; writer = c; held = held })

-- Both threads outside of their calls, with nothing taken.
abbrev pub init : SpscAtomicMemPool → System
init p = record { pool = p; reader = outside; writer = resting; held = [] }

pub data Reach (s : System) : System → Type 0 where
  start : Reach s s
  later : {t u : System} → Reach s t → Step t u → Reach s u
