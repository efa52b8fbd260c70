-- ===== src/MemPool/Waiting/Bounds.antt =====
-- How long the waiting loops of src/mem_pool.hpp last, and how they end.
use rfdts.Base.{
  ℕ, zero, suc, ◌+◌, ◌≤◌, ◌<◌, ◌≡◌, refl, ◌≢◌, ◌∙◌, sym, ap, true, ok, blocked, exited, failure,
  arith, ◌==◌, eq→==, ne→==, Bool-cases, inl, inr,
}
use rfdts.Sem.Api.{Timespec}
use rfdts.MemPool.Waiting.{get_try_num, await, spins, try_await, time_over, time_await}

-- A wait ends at the first load that differs from `front`.
pub await_ends :
    (fuel : ℕ) (rears : ℕ → ℕ) (k j front : ℕ)
    → rears (k + j) ≢ front
    → j < fuel
    → await fuel rears k front ≡ ok tt
unfolding await
await_ends zero rears k j front d h = elim h [ ]
await_ends (suc fuel) rears k zero front d h =
    rw (ne→== front (rears k) (λ e. d (ap rears (omega arith) ∙ sym e))) refl
await_ends (suc fuel) rears k (suc j) front d h = elim (Bool-cases (front == rears k)) [
  | inl same ↦
      rw same
        (await_ends fuel rears (k + 1) j front (λ e. d (ap rears (omega arith) ∙ e)) (omega arith))
  | inr differs ↦ rw differs refl
]

-- One that never sees another value does not end.
pub await_forever :
    (fuel : ℕ) (rears : ℕ → ℕ) (k front : ℕ)
    → ((j : ℕ) → rears j ≡ front)
    → await fuel rears k front ≡ blocked
unfolding await
await_forever zero rears k front h = refl
await_forever (suc fuel) rears k front h =
    rw (eq→== front (rears k) (sym (h k))) (await_forever fuel rears (k + 1) front h)

spins-le :
    (tries : ℕ) (rears : ℕ → ℕ) (k j front : ℕ)
    → rears (k + j) ≢ front
    → spins tries rears k front ≤ j
unfolding spins
spins-le zero rears k j front d = omega arith
spins-le (suc tries) rears k zero front d =
    rw (ne→== front (rears k) (λ e. d (ap rears (omega arith) ∙ sym e))) (omega arith)
spins-le (suc tries) rears k (suc j) front d = elim (Bool-cases (front == rears k)) [
  | inl same ↦
      rw same
        (omega (arith, spins-le tries rears (k + 1) j front (λ e. d (ap rears (omega arith) ∙ e))))
  | inr differs ↦ rw differs (omega arith)
]

spins_all :
    (tries : ℕ) (rears : ℕ → ℕ) (k front : ℕ)
    → ((j : ℕ) → j < tries → rears (k + j) ≡ front)
    → spins tries rears k front ≡ tries
unfolding spins
spins_all zero rears k front h = refl
spins_all (suc tries) rears k front h =
    rw (eq→== front (rears k) (sym (h 0 (omega arith)) ∙ ap rears (omega arith))) (
      ap suc (
        spins_all tries rears (k + 1) front
          (λ j l. ap rears (omega arith) ∙ h (suc j) (omega arith))))

-- `tryget` goes on when one of its first hundred loads differs from `front`.
pub try_await_ends :
    (rears : ℕ → ℕ) (j front : ℕ)
    → j < get_try_num
    → rears j ≢ front
    → try_await rears front ≡ ok tt
unfolding try_await
try_await_ends rears j front h d =
    ground (arith, spins-le get_try_num rears 0 j front (λ e. d (ap rears (omega arith) ∙ e)))

-- It gives up when none does; what its hundred and first load gives is not looked at.
pub try_await_gives_up :
    (rears : ℕ → ℕ) (front : ℕ)
    → ((j : ℕ) → j < get_try_num → rears j ≡ front)
    → try_await rears front ≡ exited failure
unfolding try_await
try_await_gives_up rears front h =
    rw (spins_all get_try_num rears 0 front (λ j l. ap rears (omega arith) ∙ h j l)) refl

-- The waiting loop of `timeget` in the atomic pools ends once its clock is over the time allowed,
-- whatever its loads give.
pub time_await_ends :
    (fuel : ℕ) (old : Timespec) (clock : ℕ → Timespec) (rears : ℕ → ℕ) (k j front : ℕ)
    → time_over old (clock (k + j)) ≡ true
    → j < fuel
    → time_await fuel old clock rears k front ≢ blocked
unfolding time_await
time_await_ends zero old clock rears k j front t h = elim h [ ]
time_await_ends (suc fuel) old clock rears k zero front t h =
    let now : time_over old (clock k) ≡ true =
      ap (λ m. time_over old (clock m)) (omega arith) ∙ t in
    ground arith
time_await_ends (suc fuel) old clock rears k (suc j) front t h = ground (
  arith,
  time_await_ends fuel old clock rears (k + 1) j front
      (ap (λ m. time_over old (clock m)) (omega arith) ∙ t) (omega arith),
)

pub time_await_seen :
    (fuel : ℕ) (old : Timespec) (clock : ℕ → Timespec) (rears : ℕ → ℕ) (front : ℕ)
    → rears 0 ≢ front
    → 0 < fuel
    → time_await fuel old clock rears 0 front ≡ ok tt
unfolding time_await
time_await_seen zero old clock rears front d h = elim h [ ]
time_await_seen (suc fuel) old clock rears front d h =
    rw (ne→== front (rears 0) (λ e. d (sym e))) refl

pub time_await_unseen :
    (fuel : ℕ) (old : Timespec) (clock : ℕ → Timespec) (rears : ℕ → ℕ) (k front : ℕ)
    → ((j : ℕ) → rears j ≡ front)
    → time_await fuel old clock rears k front ≢ ok tt
unfolding time_await
time_await_unseen zero old clock rears k front h e = cc
time_await_unseen (suc fuel) old clock rears k front h e =
    ground (arith, h k, time_await_unseen fuel old clock rears (k + 1) front h)

-- When no load shows progress, it gives up.
pub time_await_gives_up :
    (fuel : ℕ) (old : Timespec) (clock : ℕ → Timespec) (rears : ℕ → ℕ) (k j front : ℕ)
    → ((i : ℕ) → rears i ≡ front)
    → time_over old (clock (k + j)) ≡ true
    → j < fuel
    → time_await fuel old clock rears k front ≡ exited failure
unfolding time_await
time_await_gives_up zero old clock rears k j front same t h = elim h [ ]
time_await_gives_up (suc fuel) old clock rears k zero front same t h =
    let now : time_over old (clock k) ≡ true =
      ap (λ m. time_over old (clock m)) (omega arith) ∙ t in
    rw (eq→== front (rears k) (sym (same k)), now) refl
time_await_gives_up (suc fuel) old clock rears k (suc j) front same t h =
    let rest =
      time_await_gives_up fuel old clock rears (k + 1) j front same
        (ap (λ m. time_over old (clock m)) (omega arith) ∙ t) (omega arith) in
    rw (eq→== front (rears k) (sym (same k)), rest) (ground arith)
