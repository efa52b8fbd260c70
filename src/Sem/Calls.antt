-- ===== src/Sem/Calls.antt =====
-- What the members of `posix_sem` do, from what the C library's manual says of its calls.
use Prim.Native.String.{len}
use rfdts.Base.{
  ℕ, suc, ◌+◌, ◌≤◌, ◌<◌, ◌≡◌, refl, Bool, true, false, ◌||◌, List, [], ◌∷◌, none, some, ok, blocked,
  exited, errno, eagain, etimedout, einval, arith, ltb, lt→ltb, not-lt→ltb, ◌==◌, if◌then◌else◌,
}
use native.Mathlib.Decide.{dec_lt}
use rfdts.Sem.Api.{SemApi, Timespec, billion}
use rfdts.Sem.{PosixSem, Effect, delete, unnamed, post, wait, trywait, timewait, getvalue, destroy}

module _ (api : SemApi) where
  open api use {S, value, value_max}

  -- The semaphore exists and has the value `n`.
  pub record Counts (p : PosixSem S) (n : ℕ) : Type 0 where
    pub handle : S
    pub live : p.sem ≡ some handle
    pub value_eq : value handle ≡ n

  abbrev live_sem : PosixSem S → S → PosixSem S
  live_sem p s = record p { sem = some s }

  pub unnamed-Counts :
      (v : ℕ) → v ≤ value_max → (p : PosixSem S) × (unnamed api 0 v ≡ ok p) × Counts p v
  unfolding unnamed
  unnamed-Counts v h =
      let (s, e, n) = api.init_lem v h in
      (
        record { sem = some s; name = "" },
        rw e refl,
        record { handle = s; live = refl; value_eq = n },
      )

  -- `post` adds one.
  pub post-Counts :
      (p : PosixSem S) (n : ℕ)
      → Counts p n
      → n < value_max
      → (p' : PosixSem S) × (post api p ≡ ok p') × Counts p' (n + 1)
  unfolding post
  post-Counts p n c h =
      let (s, e, v) = api.post_lem c.handle (omega (arith, c.value_eq)) in
      (
        live_sem p s,
        rw (c.live, e) refl,
        record { handle = s; live = refl; value_eq = omega (arith, c.value_eq) },
      )

  -- `wait` takes one off.
  pub wait-Counts :
      (p : PosixSem S) (n : ℕ)
      → Counts p (suc n)
      → (p' : PosixSem S) × (wait api p ≡ ok p') × Counts p' n
  unfolding wait
  wait-Counts p n c =
      let (s, e, v) = api.wait_lem c.handle (omega (arith, c.value_eq)) in
      (
        live_sem p s,
        rw (c.live, e) refl,
        record { handle = s; live = refl; value_eq = omega (arith, c.value_eq) },
      )

  pub wait_blocks : (p : PosixSem S) → Counts p 0 → wait api p ≡ blocked
  unfolding wait
  wait_blocks p c = rw (c.live, api.wait_zero c.handle c.value_eq) refl

  pub trywait-Counts :
      (p : PosixSem S) (n : ℕ)
      → Counts p (suc n)
      → (p' : PosixSem S) × (trywait api p ≡ ok (none, p')) × Counts p' n
  unfolding trywait
  trywait-Counts p n c =
      let (s, e, v) = api.trywait_lem c.handle (omega (arith, c.value_eq)) in
      (
        live_sem p s,
        rw (c.live, e) refl,
        record { handle = s; live = refl; value_eq = omega (arith, c.value_eq) },
      )

  pub trywait_eagain : (p : PosixSem S) → Counts p 0 → trywait api p ≡ ok (some eagain, p)
  unfolding trywait
  trywait_eagain p c = rw (c.live, api.trywait_zero c.handle c.value_eq) refl

  pub timewait-Counts :
      (t : Timespec) (p : PosixSem S) (n : ℕ)
      → Counts p (suc n)
      → (p' : PosixSem S) × (timewait api t p ≡ ok (none, p')) × Counts p' n
  unfolding timewait
  timewait-Counts t p n c =
      let (s, e, v) = api.timedwait_lem t c.handle (omega (arith, c.value_eq)) in
      (
        live_sem p s,
        rw (c.live, e) refl,
        record { handle = s; live = refl; value_eq = omega (arith, c.value_eq) },
      )

  -- At 0 it waits until the time given; a time whose nanoseconds reach a second ends the program.
  pub timewait_zero :
      (t : Timespec) (p : PosixSem S)
      → Counts p 0
      → timewait api t p
        ≡ (if ltb t.tv_nsec billion then ok (some etimedout, p) else exited (errno einval))
  unfolding timewait
  timewait_zero t p c = elim (dec_lt t.tv_nsec billion) [
    | yes h ↦
        rw (c.live, api.timedwait_zero t c.handle c.value_eq h, lt→ltb t.tv_nsec billion h) refl
    | no h ↦
        rw
          (
            c.live,
            api.timedwait_invalid t c.handle c.value_eq (omega arith),
            not-lt→ltb t.tv_nsec billion (omega arith),
          )
          refl
  ]

  pub getvalue-Counts : (p : PosixSem S) (n : ℕ) → Counts p n → getvalue api p ≡ ok n
  unfolding getvalue
  getvalue-Counts p n c = rw (c.live, api.getvalue_lem c.handle, c.value_eq) refl

-- Whether a call uses the semaphore's memory after `delete` has freed it.
abbrev pub uses_freed : Bool → List Effect → Bool
uses_freed freed [] = false
uses_freed freed (delete ∷ es) = uses_freed true es
uses_freed freed (e ∷ es) = freed || uses_freed freed es

-- The destructor of a `posix_sem` that owns a semaphore uses freed memory exactly when the
-- semaphore is unnamed.
pub destroy-uses_freed :
    {S : Type 0} (s : S) (p : PosixSem S)
    → p.sem ≡ some s
    → uses_freed false (destroy p) ≡ (len p.name == 0)
unfolding destroy
destroy-uses_freed s p live = rw live (ground arith)
