-- ===== src/MemPool/SpscAtomic/Threads/Safety.antt =====
-- What the reader and the writer of `spsc_atomic_mem_pool` in src/mem_pool.hpp can rely on, however
-- their steps are interleaved.
use mathlib.Core.List.{append-nil, Nodup, Nodup-append, mem-append_right, mem-cons_self}
use mathlib.Core.List.Perm
use native.Mathlib.Decide.{ℕ_discrete}
use rfdts.Base.{
  ℕ, ◌+◌, ◌^◌, ◌<◌, ◌≡◌, refl, ◌≢◌, ◌⊎◌, inl, inr, ap, subst, List, [], ◌++◌, Option, none, some,
  ok, arith, length, read_lem, store_lem, pointers, upto,
}
use rfdts.Ring.Position.{offset-lt}
use rfdts.Ring.Holds.{Holds, front_elem}
use rfdts.Buffers.{Bases}
use rfdts.Buffers.Layout.{Laid, stamp-Laid}
use rfdts.Pool.Users.{mem-upto, upto-Nodup}
use rfdts.MemPool.SpscAtomic.{SpscAtomicMemPool, construct}
use rfdts.MemPool.SpscAtomic.Life.{atomic_construct-Built}
use rfdts.MemPool.SpscAtomic.Threads.{
  ReaderPc, outside, got_front, may_read, fetched, cleared, published, WriterPc, resting, storing,
  stored, ReaderMove, load_front, wait, pass, fetch, clear, publish_front, hand_out, WriterMove,
  store_slot, publish_rear, System, Step, reads, writes, Reach, start, later, init,
}
use rfdts.MemPool.SpscAtomic.Threads.Inv.{front_of, taken, given, Inv, free-le, rear-eq}
use rfdts.MemPool.SpscAtomic.Threads.Reader.{ReaderMove-Inv, first}
use rfdts.MemPool.SpscAtomic.Threads.Writer.{WriterMove-Inv}

Step-Inv :
    {size : ℕ} {s t : System}
    → Step s t
    → Inv size s.pool s.reader s.writer s.held
    → Inv size t.pool t.reader t.writer t.held
Step-Inv (reads m) inv = ReaderMove-Inv m inv
Step-Inv (writes m) inv = WriterMove-Inv m inv

-- The slot that the reader is about to read or to clear.
abbrev pub touches : ReaderPc → Option ℕ
touches (may_read f) = some f
touches (fetched f temp) = some f
touches _ = none

-- A reader that can go on, one step at a time.
abbrev pub ReaderMoves : System → Type 0
ReaderMoves s =
    (p : SpscAtomicMemPool) × (c : ReaderPc) × (held : List ℕ) × ReaderMove s.pool s.held s.reader p
      c held

abbrev pub WriterMoves : System → Type 0
WriterMoves s =
    (p : SpscAtomicMemPool) × (c : WriterPc) × (held : List ℕ) × WriterMove s.pool s.held s.writer p
      c held

apart :
    (size : ℕ) (p : SpscAtomicMemPool) (c : ReaderPc) (k e f : ℕ) (held : List ℕ)
    → Inv size p c (storing k e) held
    → touches c ≡ some f
    → f ≢ k
apart size p (may_read g) k e f held inv t same =
    ground
      (arith, inv.reading, inv.writing, rear-eq inv, free-le inv, inv.rqnum_eq, inv.holds.front_lt)
apart size p (fetched g temp) k e f held inv t same =
    let (x, rest, q_eq, temp_eq) = inv.reading.1 in
    ground (
      arith,
      inv.reading.0,
      inv.writing,
      rear-eq inv,
      free-le inv,
      inv.rqnum_eq,
      inv.holds.front_lt,
      ap length q_eq,
    )
apart size p outside k e f held inv t same = cc
apart size p (got_front g) k e f held inv t same = cc
apart size p (cleared g temp) k e f held inv t same = cc
apart size p (published temp) k e f held inv t same = cc

reader_goes_on :
    (size : ℕ) (p : SpscAtomicMemPool) (c : ReaderPc) (w : WriterPc) (held : List ℕ)
    → Inv size p c w held
    → ReaderMoves (record { pool = p; reader = c; writer = w; held = held })
reader_goes_on size p outside w held inv = (_, _, _, load_front)
reader_goes_on size p (got_front f) w held inv = elim (ℕ_discrete p.ringqueue.rear f) [
  | yes e ↦ (_, _, _, wait e)
  | no d ↦ (_, _, _, pass d)
]
reader_goes_on size p (may_read f) w held inv =
    let (x, rest, q_eq) = first inv.free inv.reading.1 in
    let elem =
      front_elem (some x) (pointers rest)
        (subst (λ q. Holds p.rqnum p.ringqueue (pointers q)) q_eq inv.holds) in
    (
      _,
      _,
      _,
      fetch {temp = some x}
          (rw (inv.reading.0) (read_lem p.ringqueue.slots.cells p.ringqueue.front elem)),
    )
reader_goes_on size p (fetched f temp) w held inv = (
  _,
  _,
  _,
  clear (
      store_lem p.ringqueue.slots f none
        (omega (arith, inv.reading.0, inv.holds.size, inv.holds.front_lt))),
)
reader_goes_on size p (cleared f temp) w held inv = (_, _, _, publish_front)
reader_goes_on size p (published none) w held inv = absurd (cc (inv.reading.1))
reader_goes_on size p (published (some x)) w held inv =
    let x_lt : x < size =
      mem-upto size x ((Perm.mem_iff inv.whole).0 (mem-append_right inv.free mem-cons_self)) in
    let (b, stamped, shape, laid, id, wr) =
      stamp-Laid size p.buffers x (omega (arith, x_lt, inv.size_eq)) inv.laid in
    (_, _, _, hand_out stamped)

writer_goes_on :
    (size : ℕ) (p : SpscAtomicMemPool) (c : ReaderPc) (w : WriterPc) (held : List ℕ)
    → Inv size p c w held
    → (w ≡ resting) ⊎ WriterMoves (record { pool = p; reader = c; writer = w; held = held })
writer_goes_on size p c resting held inv = inl refl
writer_goes_on size p c (storing k e) held inv =
    let r = p.ringqueue in
    let rear_lt : r.rear < p.rqnum = rw (rear-eq inv) (
      offset-lt p.rqnum (front_of c p.rqnum r.front) (length inv.free) inv.holds.front_lt
        (omega (arith, free-le inv, inv.rqnum_eq))) in
    inr (
      _,
      _,
      _,
      store_slot (store_lem r.slots k (some e) (omega (arith, inv.writing, inv.holds.size))),
    )
writer_goes_on size p c (stored k e) held inv = inr (_, _, _, publish_rear)

module _ (elesize elenum : ℕ) (bases : Bases) (in_range : elenum + 1 < 2 ^ 32)
    {p : SpscAtomicMemPool} {s : System} (made : construct elesize elenum bases ≡ ok p) where
  -- After the constructor of `spsc_atomic_mem_pool` with fewer than 2 ^ 32 - 1 elements, every
  -- state that interleaved steps of `get` and of `put` reach keeps the invariant of the pool: the
  -- ring holds free work requests from the reader's place to the writer's, and these, those in
  -- flight and those of the users are together the constructor's.
  pub Reach-Inv : Reach (init p) s → Inv elenum s.pool s.reader s.writer s.held
  Reach-Inv r = go r
    where
      go : {t : System} → Reach (init p) t → Inv elenum t.pool t.reader t.writer t.held
      go start =
          let built = atomic_construct-Built elesize elenum bases in_range in
          let returns = built.returns in
          let same : built.pool ≡ p = cc in
          subst (λ z. Inv elenum z outside resting []) same
            (record {
              free = upto elenum;
              size_eq = built.elenum_eq;
              rqnum_eq = omega (arith, built.sound.rqnum_eq, built.elenum_eq);
              small = built.sound.small;
              holds = built.sound.holds;
              laid = subst (λ n. Laid n built.pool.buffers) built.elenum_eq built.sound.laid;
              reading = tt;
              writing = tt;
              whole = rw append-nil (Perm.refl (upto elenum));
            })
      go (later r st) = Step-Inv st (go r)

  -- After the constructor of `spsc_atomic_mem_pool` with fewer than 2 ^ 32 - 1 elements, however
  -- `get` and `put` are interleaved, while the writer is about to store into a slot the reader is
  -- about to read or clear another one.
  pub no_race :
      Reach (init p) s → (f k e : ℕ) → touches s.reader ≡ some f → s.writer ≡ storing k e → f ≢ k
  no_race r f k e t w =
      apart elenum s.pool s.reader k e f s.held
        (subst (λ z. Inv elenum s.pool s.reader z s.held) w (Reach-Inv r)) t

  -- After the constructor of `spsc_atomic_mem_pool` with fewer than 2 ^ 32 - 1 elements, in every
  -- state that interleaved steps of `get` and of `put` reach, the reader has a step, and so has a
  -- writer inside of `put`.
  pub threads_go_on : Reach (init p) s → ReaderMoves s × ((s.writer ≡ resting) ⊎ WriterMoves s)
  threads_go_on r = (
    reader_goes_on elenum s.pool s.reader s.writer s.held (Reach-Inv r),
    writer_goes_on elenum s.pool s.reader s.writer s.held (Reach-Inv r),
  )

  -- After the constructor of `spsc_atomic_mem_pool` with fewer than 2 ^ 32 - 1 elements, however
  -- the steps of a thread in `get` and of one in `put` are interleaved, no work request is twice
  -- among what the reader has taken, what the writer gives back and what the users hold.
  pub threads_never_shared : Reach (init p) s → Nodup (taken s.reader ++ (given s.writer ++ s.held))
  threads_never_shared r =
      (Nodup-append.0 (Perm.nodup (Perm.symm ((Reach-Inv r).whole)) (upto-Nodup elenum))).1
