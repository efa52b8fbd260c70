-- ===== src/MemPool/SpscAtomic/Use.antt =====
-- `spsc_atomic_mem_pool` of src/mem_pool.hpp in use: a reader that calls `get`, `tryget` and
-- `timeget`, and a writer that puts back only what was taken.
use mathlib.Core.List.{Nodup, Mem}
use rfdts.Base.{
  ℕ, suc, ◌+◌, ◌^◌, ◌≤◌, ◌<◌, ◌≡◌, refl, ◌≢◌, ◌∙◌, sym, ap, subst, List, [], ◌∷◌, ◌++◌, Option,
  some, Outcome, ok, arith, length, length-append, length-upto, upto,
}
use rfdts.Buffers.{Bases}
use rfdts.Ring.{step32, step64}
use rfdts.Sem.Api.{Timespec}
use rfdts.MemPool.Waiting.{await, try_await, time_await}
use rfdts.MemPool.Waiting.Bounds.{await_forever, try_await_gives_up, time_await_unseen}
use rfdts.MemPool.SpscAtomic.{SpscAtomicMemPool, construct, take_after, get, tryget, timeget, put}
use rfdts.MemPool.SpscAtomic.Repr.{
  Repr, rear-eq, Gets, atomic_get-Gets, atomic_tryget-Gets, atomic_timeget-Gets, atomic_put-Puts,
}
use rfdts.MemPool.SpscAtomic.Life.{atomic_construct-Built}
use rfdts.Pool.{PoolLaws}
use rfdts.Pool.Users.{Reach, Accounted, Reach-Accounted, held-Nodup, fresh, available, accepted}

-- The calls that take a work request, while no other call is running: every load of `rear` gives
-- its value. The last with its clock, and with the number of rounds that are run.
pub data Way : Type 0 where
  by_get : ℕ → Way
  by_tryget : Way
  by_timeget : Timespec → (ℕ → Timespec) → ℕ → Way

abbrev pub take : Way → SpscAtomicMemPool → Outcome (Option ℕ × SpscAtomicMemPool)
take (by_get more) p = get (λ k. p.ringqueue.rear) (suc more) p
take by_tryget p = tryget (λ k. p.ringqueue.rear) p
take (by_timeget old clock more) p = timeget old clock (λ k. p.ringqueue.rear) (suc more) p

pub rear-ne :
    (p : SpscAtomicMemPool) (x : ℕ) (q : List ℕ)
    → Repr p (x ∷ q)
    → length (x ∷ q) ≤ p.elenum
    → p.ringqueue.rear ≢ p.ringqueue.front
rear-ne p x q r room e = ground (arith, rear-eq p (x ∷ q) r, r.holds.front_lt, r.rqnum_eq)

take-Gets :
    (w : Way) (p : SpscAtomicMemPool) (x : ℕ) (q : List ℕ)
    → Repr p (x ∷ q)
    → length (x ∷ q) ≤ p.elenum
    → Gets (take w p) p x q
take-Gets (by_get more) p x q r room =
    atomic_get-Gets (λ k. p.ringqueue.rear) 0 (suc more) p x q (rear-ne p x q r room) (omega arith)
      r
take-Gets by_tryget p x q r room =
    atomic_tryget-Gets (λ k. p.ringqueue.rear) 0 p x q (rear-ne p x q r room) (omega arith) r
take-Gets (by_timeget old clock more) p x q r room =
    atomic_timeget-Gets old clock (λ k. p.ringqueue.rear) (suc more) p x q (rear-ne p x q r room)
      (omega arith) r

rear-empty : (p : SpscAtomicMemPool) → Repr p [] → p.ringqueue.rear ≡ p.ringqueue.front
rear-empty p r = ground (arith, rear-eq p [] r, r.holds.front_lt)

take_after-ok :
    (waited : Outcome (Unit {0})) (step : ℕ → ℕ) (p : SpscAtomicMemPool)
    (r : Option ℕ × SpscAtomicMemPool)
    → take_after waited step p ≡ ok r
    → waited ≡ ok tt
unfolding take_after
take_after-ok waited step p r e = ground arith

take_empty :
    (w : Way) (p : SpscAtomicMemPool)
    → Repr p []
    → (r : Option ℕ × SpscAtomicMemPool) → take w p ≢ ok r
unfolding get tryget timeget
take_empty (by_get more) p r o e =
    let loads = λ (k : ℕ). p.ringqueue.rear in
    let front = p.ringqueue.front in
    let forever = await_forever (suc more) loads 0 front (λ j. rear-empty p r) in
    let passed = take_after-ok (await (suc more) loads 0 front) (step32 p.rqnum) p o e in cc
take_empty by_tryget p r o e =
    let loads = λ (k : ℕ). p.ringqueue.rear in
    let front = p.ringqueue.front in
    let gives_up = try_await_gives_up loads front (λ j l. rear-empty p r) in
    let passed = take_after-ok (try_await loads front) (step32 p.rqnum) p o e in cc
take_empty (by_timeget old clock more) p r o e =
    let loads = λ (k : ℕ). p.ringqueue.rear in
    let front = p.ringqueue.front in
    time_await_unseen (suc more) old clock loads 0 front (λ j. rear-empty p r)
      (take_after-ok (time_await (suc more) old clock loads 0 front) (step64 p.rqnum) p o e)

-- A sound pool of `size` work requests, of which not more than these are free.
pub record Sound (size : ℕ) (p : SpscAtomicMemPool) (q : List ℕ) : Type 0 where
  pub repr : Repr p q
  pub size_eq : p.elenum ≡ size
  pub bounded : length q ≤ size

pub take_cons :
    (size : ℕ) (w : Way) (p : SpscAtomicMemPool) (x : ℕ) (q : List ℕ)
    → Sound size p (x ∷ q)
    → (p' : SpscAtomicMemPool) × (take w p ≡ ok (some x, p')) × Sound size p' q
take_cons size w p x q s =
    let g = take-Gets w p x q s.repr (omega (arith, s.bounded, s.size_eq)) in
    (
      g.after,
      g.returns,
      record {
        repr = g.sound;
        size_eq = g.same.elenum_eq ∙ s.size_eq;
        bounded = omega (arith, s.bounded);
      },
    )

pub take_nil :
    (size : ℕ) (w : Way) (p : SpscAtomicMemPool)
    → Sound size p []
    → (r : Option ℕ × SpscAtomicMemPool) → take w p ≢ ok r
take_nil size w p s = take_empty w p s.repr

pub put_room :
    (size : ℕ) (p : SpscAtomicMemPool) (q : List ℕ) (e : ℕ)
    → Sound size p q
    → e < size
    → length q < size
    → (p' : SpscAtomicMemPool) × (put p (some e) ≡ ok p') × Sound size p' (q ++ e ∷ [])
put_room size p q e s below room =
    let a = atomic_put-Puts p q e s.repr (omega (arith, s.size_eq)) (omega (arith, s.size_eq)) in
    (
      a.after,
      a.returns,
      record {
        repr = a.sound;
        size_eq = ap (λ b. b.elenum) (sym a.same) ∙ s.size_eq;
        bounded = omega (arith, length-append q (e ∷ []));
      },
    )

abbrev pub spsc_atomic_laws : ℕ → PoolLaws
spsc_atomic_laws size = record {
  P = SpscAtomicMemPool;
  size = size;
  Way = Way;
  get = take;
  put = put;
  Repr = Sound size;
  get_cons = take_cons size;
  get_nil = take_nil size;
  put_room = put_room size;
}

abbrev pub UsedFrom : ℕ → SpscAtomicMemPool → SpscAtomicMemPool → List ℕ → Type 0
UsedFrom elenum p pool held =
    Reach (spsc_atomic_laws elenum) (record { pool = p; held = [] })
      (record { pool = pool; held = held })

module _ (elesize elenum : ℕ) (bases : Bases) (in_range : elenum + 1 < 2 ^ 32)
    {p pool : SpscAtomicMemPool} {held : List ℕ} (made : construct elesize elenum bases ≡ ok p)
    (used : UsedFrom elenum p pool held) where
  accounted : Accounted (spsc_atomic_laws elenum) (record { pool = pool; held = held })
  accounted =
      let built = atomic_construct-Built elesize elenum bases in_range in
      let returns = built.returns in
      let same : built.pool ≡ p = cc in
      Reach-Accounted (spsc_atomic_laws elenum)
        (subst (λ z. Sound elenum z (upto elenum)) same
          (record {
            repr = built.sound;
            size_eq = built.elenum_eq;
            bounded = omega (arith, length-upto elenum);
          }))
        refl used

  -- In a `spsc_atomic_mem_pool` constructed from fewer than 2 ^ 32 - 1 elements, after any calls
  -- of `get`, `tryget`, `timeget` and of `put` with a held work request, no work request is held
  -- twice, and the one that the next successful call hands out is held by nobody.
  pub spsc_atomic_never_shared :
      (w : Way) (x : ℕ) (p' : SpscAtomicMemPool)
      → take w pool ≡ ok (some x, p')
      → Nodup held × (¬ Mem x held)
  spsc_atomic_never_shared w x p' e = (
    held-Nodup (spsc_atomic_laws elenum) accounted,
    fresh (spsc_atomic_laws elenum) w x p' accounted e,
  )

  -- In a `spsc_atomic_mem_pool` constructed from fewer than 2 ^ 32 - 1 elements, after any calls
  -- of `get`, `tryget`, `timeget` and of `put` with a held work request, while not every work
  -- request is held, each of the three calls hands one out.
  pub spsc_atomic_available :
      (w : Way)
      → length held < elenum
      → (x : ℕ) × (p' : SpscAtomicMemPool) × (take w pool ≡ ok (some x, p'))
  spsc_atomic_available w h = available (spsc_atomic_laws elenum) w accounted h

  -- In such a use of such a pool, `put` of a held work request returns.
  pub spsc_atomic_accepted :
      (before after : List ℕ) (e : ℕ)
      → held ≡ before ++ e ∷ after
      → (p' : SpscAtomicMemPool) × (put pool (some e) ≡ ok p')
  spsc_atomic_accepted before after e h =
      accepted (spsc_atomic_laws elenum) before after e accounted h
