-- ===== src/WrPool/Use.antt =====
-- A pool of src/wr_pool.hpp from its constructor on, with users that put back only what they took.
use mathlib.Core.List.{Nodup, Mem}
use rfdts.Base.{ℕ, ◌+◌, ◌^◌, ◌<◌, ◌≡◌, refl, subst, List, [], ◌∷◌, ◌++◌, some, ok, length, upto}
use rfdts.Buffers.{Bases}
use rfdts.Pool.Users.{Reach, Accounted, Reach-Accounted, held-Nodup, fresh, available, accepted}
use rfdts.WrPool.{WrPool, get, put, construct}
use rfdts.WrPool.Construct.{construct_free}
use rfdts.WrPool.Life.{Sound, wr_pool_laws}

-- The state of a pool and its users, reached from the constructor's pool by calls of `get` and by
-- calls of `put` with a work request that is held.
abbrev pub UsedFrom : ℕ → WrPool → WrPool → List ℕ → Type 0
UsedFrom elenum p pool held =
    Reach (wr_pool_laws elenum) (record { pool = p; held = [] })
      (record { pool = pool; held = held })

module _ (elesize elenum : ℕ) (bases : Bases) (some_size : 0 < elesize) (some_elem : 0 < elenum)
    (in_range : elenum + 1 < 2 ^ 32) where
  module _ {p pool : WrPool} {held : List ℕ} (made : construct elesize elenum bases ≡ ok p)
      (used : UsedFrom elenum p pool held) where
    pub accounted : Accounted (wr_pool_laws elenum) (record { pool = pool; held = held })
    accounted =
        let built = construct_free elesize elenum bases some_size some_elem in_range in
        let returns = built.returns in
        let same : built.pool ≡ p = cc in
        Reach-Accounted (wr_pool_laws elenum)
          (subst (λ z. Sound elenum z (upto elenum)) same
            (record { repr = built.sound; size_eq = built.elenum_eq }))
          refl used

    -- In a `wr_pool` constructed from a positive element size and at least one element, fewer
    -- than 2 ^ 32 - 1, after any calls of `get` and of `put` with a held work request, no work
    -- request is held twice, and the one that the next successful `get` returns is held by
    -- nobody.
    pub never_shared :
        (x : ℕ) (p' : WrPool) → get pool ≡ ok (some x, p') → Nodup held × (¬ Mem x held)
    never_shared x p' e = (
      held-Nodup (wr_pool_laws elenum) accounted,
      fresh (wr_pool_laws elenum) tt x p' accounted e,
    )

    -- In a `wr_pool` constructed from a positive element size and at least one element, fewer
    -- than 2 ^ 32 - 1, after any calls of `get` and of `put` with a held work request, while
    -- fewer than `elenum` work requests are held, `get` returns one without a fault.
    pub get_available :
        length held < elenum → (x : ℕ) × (p' : WrPool) × (get pool ≡ ok (some x, p'))
    get_available h = available (wr_pool_laws elenum) tt accounted h

    -- In a `wr_pool` constructed from a positive element size and at least one element, fewer
    -- than 2 ^ 32 - 1, after any calls of `get` and of `put` with a held work request, `put` of a
    -- held work request succeeds: it neither waits for a flag nor faults.
    pub put_accepted :
        (before after : List ℕ) (e : ℕ)
        → held ≡ before ++ e ∷ after
        → (p' : WrPool) × (put pool (some e) ≡ ok p')
    put_accepted before after e h = accepted (wr_pool_laws elenum) before after e accounted h
