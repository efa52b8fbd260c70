-- ===== src/MemPool/MpscSem/Use.antt =====
-- `mpsc_sem_mem_pool` of src/mem_pool.hpp in use: moving, destroying, and users that put back only
-- what they took, by whichever of `get`, `tryget` and `timeget`.
use mathlib.Core.List.{Nodup, Mem}
use rfdts.Base.{
  ℕ, ◌^◌, ◌≤◌, ◌<◌, ◌≡◌, refl, ◌≢◌, ◌∙◌, sym, ap, subst, List, [], ◌∷◌, ◌++◌, Option, some, Outcome,
  ok, blocked, arith, length, upto, ◌==◌, if◌then◌else◌, ne→==,
}
use rfdts.Buffers.{Bases}
use rfdts.Sem.Api.{SemApi, Timespec}
use rfdts.Sem.Calls.{unnamed-Counts, getvalue-Counts}
use rfdts.MemPool.MpscSem.{
  MpscSemMemPool, construct, get, tryget, timeget, put, move, destroy, emptied,
}
use rfdts.MemPool.MpscSem.Repr.{
  Repr, Gets, mpsc_sem_get-Gets, mpsc_sem_tryget-Gets, mpsc_sem_timeget-Gets, mpsc_sem_gets_empty,
  mpsc_sem_put-Puts,
}
use rfdts.MemPool.MpscSem.Life.{mpsc_sem_construct-Built}
use rfdts.MemPool.SpscSem.Use.{Way, by_get, by_tryget, by_timeget}
use rfdts.Pool.{PoolLaws}
use rfdts.Pool.Users.{Reach, Accounted, Reach-Accounted, held-Nodup, fresh, available, accepted}

module _ (api : SemApi) where
  open api use {S, value_max}

  -- The destructor frees the blocks once every work request is back, and waits until then.
  pub mpsc_sem_destroy_complete :
      (p : MpscSemMemPool S) (q : List ℕ)
      → Repr api p q
      → p.addr ≢ 0
      → destroy api p ≡ (if length q == p.elenum then ok (emptied api p) else blocked)
  unfolding destroy
  mpsc_sem_destroy_complete p q r live =
      rw (ne→== p.addr 0 live, getvalue-Counts api p.count (length q) r.counts) refl

  pub record Moved (p : MpscSemMemPool S) (q : List ℕ) : Type 0 where
    pub new_pool : MpscSemMemPool S
    pub old_pool : MpscSemMemPool S
    pub returns : move api p ≡ ok (new_pool, old_pool)
    pub sound : Repr api new_pool q
    pub released : destroy api old_pool ≡ ok old_pool

  -- The move constructor takes the blocks over, with a semaphore of its own at the same value.
  pub mpsc_sem_move-Moved :
      (p : MpscSemMemPool S) (q : List ℕ) → Repr api p q → length q ≤ value_max → Moved p q
  unfolding move destroy
  mpsc_sem_move-Moved p q r h =
      let (count, made, counts) = unnamed-Counts api (length q) h in
      record {
        new_pool = record p { count = count };
        old_pool = emptied api p;
        returns = rw (getvalue-Counts api p.count (length q) r.counts, made) refl;
        sound = record {
          small = r.small;
          holds = r.holds;
          flagged = r.flagged;
          counts = counts;
          laid = r.laid;
          ids = r.ids;
        };
        released = refl;
      }

  abbrev pub take : Way → MpscSemMemPool S → Outcome (Option ℕ × MpscSemMemPool S)
  take by_get = get api
  take by_tryget = tryget api
  take (by_timeget now) = timeget api now

  take-Gets :
      (w : Way) (p : MpscSemMemPool S) (x : ℕ) (q : List ℕ)
      → Repr api p (x ∷ q)
      → Gets api (take w p) p x q
  take-Gets by_get p x q r = mpsc_sem_get-Gets api p x q r
  take-Gets by_tryget p x q r = mpsc_sem_tryget-Gets api p x q r
  take-Gets (by_timeget now) p x q r = mpsc_sem_timeget-Gets api now p x q r

  now_zero : Timespec
  now_zero = record { tv_sec = 0; tv_nsec = 0 }

  take_empty :
      (w : Way) (p : MpscSemMemPool S)
      → Repr api p []
      → (r : Option ℕ × MpscSemMemPool S) → take w p ≢ ok r
  take_empty by_get p r o e = cc ((mpsc_sem_gets_empty api now_zero p r).0)
  take_empty by_tryget p r o e = cc ((mpsc_sem_gets_empty api now_zero p r).1)
  take_empty (by_timeget now) p r o e = ground (arith, (mpsc_sem_gets_empty api now p r).2)

  pub record Sound (size : ℕ) (p : MpscSemMemPool S) (q : List ℕ) : Type 0 where
    pub repr : Repr api p q
    pub size_eq : p.elenum ≡ size
    pub countable : size ≤ value_max

  pub take_cons :
      (size : ℕ) (w : Way) (p : MpscSemMemPool S) (x : ℕ) (q : List ℕ)
      → Sound size p (x ∷ q)
      → (p' : MpscSemMemPool S) × (take w p ≡ ok (some x, p')) × Sound size p' q
  take_cons size w p x q s =
      let g = take-Gets w p x q s.repr in
      (
        g.after,
        g.returns,
        record { repr = g.sound; size_eq = g.same.elenum_eq ∙ s.size_eq; countable = s.countable },
      )

  pub take_nil :
      (size : ℕ) (w : Way) (p : MpscSemMemPool S)
      → Sound size p []
      → (r : Option ℕ × MpscSemMemPool S) → take w p ≢ ok r
  take_nil size w p s = take_empty w p s.repr

  pub put_room :
      (size : ℕ) (p : MpscSemMemPool S) (q : List ℕ) (e : ℕ)
      → Sound size p q
      → e < size
      → length q < size
      → (p' : MpscSemMemPool S) × (put api p (some e) ≡ ok p') × Sound size p' (q ++ e ∷ [])
  put_room size p q e s below room =
      let a =
        mpsc_sem_put-Puts api p q e s.repr (omega (arith, s.size_eq)) (omega (arith, s.size_eq))
          (omega (arith, s.size_eq, s.countable)) in
      (
        a.after,
        a.returns,
        record {
          repr = a.sound;
          size_eq = ap (λ b. b.elenum) (sym a.same) ∙ s.size_eq;
          countable = s.countable;
        },
      )

  abbrev pub mpsc_sem_laws : ℕ → PoolLaws
  mpsc_sem_laws size = record {
    P = MpscSemMemPool S;
    size = size;
    Way = Way;
    get = take;
    put = put api;
    Repr = Sound size;
    get_cons = take_cons size;
    get_nil = take_nil size;
    put_room = put_room size;
  }

  abbrev pub UsedFrom : ℕ → MpscSemMemPool S → MpscSemMemPool S → List ℕ → Type 0
  UsedFrom elenum p pool held =
      Reach (mpsc_sem_laws elenum) (record { pool = p; held = [] })
        (record { pool = pool; held = held })

  module _ (elesize elenum : ℕ) (bases : Bases) (some_elem : 0 < elenum)
      (in_range : elenum < 2 ^ 32) (countable : elenum ≤ value_max) {p pool : MpscSemMemPool S}
      {held : List ℕ} (made : construct api elesize elenum bases ≡ ok p)
      (used : UsedFrom elenum p pool held) where
    accounted : Accounted (mpsc_sem_laws elenum) (record { pool = pool; held = held })
    accounted =
        let built =
          mpsc_sem_construct-Built api elesize elenum bases some_elem in_range countable in
        let returns = built.returns in
        let same : built.pool ≡ p = cc in
        Reach-Accounted (mpsc_sem_laws elenum)
          (subst (λ z. Sound elenum z (upto elenum)) same
            (record { repr = built.sound; size_eq = built.elenum_eq; countable = countable }))
          refl used

    -- In a `mpsc_sem_mem_pool` constructed from at least one element, fewer than 2 ^ 32 and no
    -- more than a semaphore counts, after any calls of `get`, `tryget`, `timeget` and of `put`
    -- with a held work request, no work request is held twice, and the one that the next
    -- successful call hands out is held by nobody.
    pub mpsc_sem_never_shared :
        (w : Way) (x : ℕ) (p' : MpscSemMemPool S)
        → take w pool ≡ ok (some x, p')
        → Nodup held × (¬ Mem x held)
    mpsc_sem_never_shared w x p' e = (
      held-Nodup (mpsc_sem_laws elenum) accounted,
      fresh (mpsc_sem_laws elenum) w x p' accounted e,
    )

    -- In a `mpsc_sem_mem_pool` constructed from at least one element, fewer than 2 ^ 32 and no
    -- more than a semaphore counts, after any calls of `get`, `tryget`, `timeget` and of `put`
    -- with a held work request, while not every work request is held, each of the three calls
    -- hands one out.
    pub mpsc_sem_available :
        (w : Way)
        → length held < elenum
        → (x : ℕ) × (p' : MpscSemMemPool S) × (take w pool ≡ ok (some x, p'))
    mpsc_sem_available w h = available (mpsc_sem_laws elenum) w accounted h

    -- In such a use of such a pool, `put` of a held work request returns.
    pub mpsc_sem_accepted :
        (before after : List ℕ) (e : ℕ)
        → held ≡ before ++ e ∷ after
        → (p' : MpscSemMemPool S) × (put api pool (some e) ≡ ok p')
    mpsc_sem_accepted before after e h = accepted (mpsc_sem_laws elenum) before after e accounted h
