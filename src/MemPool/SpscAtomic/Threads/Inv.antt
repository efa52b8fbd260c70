-- ===== src/MemPool/SpscAtomic/Threads/Inv.antt =====
-- What holds between any two steps of the reader and the writer of `spsc_atomic_mem_pool` in
-- src/mem_pool.hpp.
use mathlib.Core.List.{Perm}
use rfdts.Base.{
  ℕ, ◌+◌, ◌^◌, ◌≤◌, ◌<◌, ◌≡◌, ◌∙◌, ap, List, [], ◌∷◌, ◌++◌, Option, none, some, arith, length,
  get_elem?, length-append, pointers, length-pointers, upto, length-upto,
}
use rfdts.Ring.{Ring, step32}
use rfdts.Ring.Position.{offset}
use rfdts.Ring.Holds.{Holds}
use rfdts.Buffers.Layout.{Laid}
use rfdts.Pool.Users.{length-perm}
use rfdts.MemPool.SpscAtomic.{SpscAtomicMemPool}
use rfdts.MemPool.SpscAtomic.Threads.{
  ReaderPc, outside, got_front, may_read, fetched, cleared, published, WriterPc, resting, storing,
  stored,
}

-- The front as it is to be read: once its slot is cleared, it is as good as moved.
abbrev pub front_of : ReaderPc → ℕ → ℕ → ℕ
front_of (cleared f temp) n front = step32 n f
front_of _ n front = front

abbrev pub seen : ReaderPc → ℕ → Ring (Option ℕ) → Ring (Option ℕ)
seen c n r = record r { front = front_of c n r.front }

abbrev pub listed : Option ℕ → List ℕ
listed none = []
listed (some x) = x ∷ []

-- What the reader has taken out of the ring and not handed out yet.
abbrev pub taken : ReaderPc → List ℕ
taken (cleared f temp) = listed temp
taken (published temp) = listed temp
taken _ = []

-- What the writer is about to put into it.
abbrev pub given : WriterPc → List ℕ
given resting = []
given (storing r e) = e ∷ []
given (stored r e) = e ∷ []

-- What the reader knows of a ring that holds `q`.
abbrev pub Reading : ReaderPc → ℕ → List ℕ → Type 0
Reading outside front q = Unit
Reading (got_front f) front q = f ≡ front
Reading (may_read f) front q = (f ≡ front) × (0 < length q)
Reading (fetched f temp) front q =
    (f ≡ front) × ((x : ℕ) × (rest : List ℕ) × (q ≡ x ∷ rest) × (temp ≡ some x))
Reading (cleared f temp) front q = (f ≡ front) × ((x : ℕ) × (temp ≡ some x))
Reading (published temp) front q = (x : ℕ) × (temp ≡ some x)

-- What the writer knows.
abbrev pub Writing : WriterPc → Ring (Option ℕ) → Type 0
Writing resting r = Unit
Writing (storing k e) r = k ≡ r.rear
Writing (stored k e) r = (k ≡ r.rear) × (get_elem? r.slots.cells k ≡ some (some e))

pub record Inv (size : ℕ) (p : SpscAtomicMemPool) (c : ReaderPc) (w : WriterPc) (held : List ℕ)
    : Type 0 where
  pub free : List ℕ
  pub size_eq : p.elenum ≡ size
  pub rqnum_eq : p.rqnum ≡ size + 1
  pub small : p.rqnum < 2 ^ 32
  pub holds : Holds p.rqnum (seen c p.rqnum p.ringqueue) (pointers free)
  pub laid : Laid size p.buffers
  pub reading : Reading c p.ringqueue.front free
  pub writing : Writing w p.ringqueue
  pub whole : Perm (free ++ (taken c ++ (given w ++ held))) (upto size)

module _ {size : ℕ} {p : SpscAtomicMemPool} {c : ReaderPc} {w : WriterPc} {held : List ℕ}
    (inv : Inv size p c w held) where
  -- Never more than `size` are free, so one slot of the ring is always empty.
  pub free-le : length inv.free ≤ size
  free-le = omega (
    arith,
    length-perm inv.whole,
    length-append inv.free (taken c ++ (given w ++ held)),
    length-upto size,
  )

  pub rear-eq :
      p.ringqueue.rear ≡ offset p.rqnum (front_of c p.rqnum p.ringqueue.front) (length inv.free)
  rear-eq =
      inv.holds.rear_eq
      ∙ ap (offset p.rqnum (front_of c p.rqnum p.ringqueue.front)) (length-pointers inv.free)
