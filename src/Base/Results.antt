-- ===== src/Base/Results.antt =====
-- How a call ends, and reads and writes of C arrays.
use Prim.Native.Nat.{ℕ, ◌<◌, ◌≤◌}
use mathlib.Core.Path.{◌≡◌, refl}
use mathlib.Core.Option.{none, some}
use mathlib.Core.List.{List}
use native.Mathlib.Omega.{arith}
use rfdts.Base.Tests.{ltb, if◌then◌else◌}
use rfdts.Base.Lists.{length, get_elem?, set}

-- The values of `errno` that the program sets or tests; `other` is any further one.
pub data Errno : Type 0 where
  einval eagain etimedout eperm enosys : Errno
  other : ℕ → Errno

-- `exit(EXIT_FAILURE)`, `exit(errno)`, and `std::terminate()`.
pub data Exit : Type 0 where
  failure terminate : Exit
  errno : Errno → Exit

-- `blocked`: the call waits, and nothing that it does itself ends the wait.
-- `fault`: a null pointer or an index out of bounds is used.
pub data Outcome {ℓ} (A : Type ℓ) : Type ℓ where
  ok : A → Outcome A
  blocked : Outcome A
  exited : Exit → Outcome A
  fault : Outcome A

-- What follows a call that returns; the other endings are those of the whole.
infixl 5 ◌>>=◌
abbrev pub ◌>>=◌ {ℓ κ} : {A : Type ℓ} {B : Type κ} → Outcome A → (A → Outcome B) → Outcome B
blocked >>= f = blocked
exited e >>= f = exited e
fault >>= f = fault
ok a >>= f = f a

-- A call that returns was made of calls that returned.
pub bind_ok {ℓ κ} :
    {A : Type ℓ} {B : Type κ} (m : Outcome A) (f : A → Outcome B) {b : B}
    → m >>= f ≡ ok b
    → (a : A) × (m ≡ ok a) × (f a ≡ ok b)
bind_ok (ok a) f e = (a, refl, e)
bind_ok blocked f e = cc
bind_ok (exited x) f e = cc
bind_ok fault f e = cc

pub ok_inj {ℓ} : {A : Type ℓ} {a b : A} → ok a ≡ ok b → a ≡ b
ok_inj e = cc

module _ {ℓ} {A : Type ℓ} where
  -- `a[i]`
  unfoldable pub read : List A → ℕ → Outcome A
  read xs i = elim (get_elem? xs i) [ none ↦ fault | some a ↦ ok a ]

  -- `a[i] = v`
  unfoldable pub write : List A → ℕ → A → Outcome (List A)
  write xs i v = if ltb i (length xs) then ok (set xs i v) else fault

  pub read_lem : (xs : List A) (i : ℕ) {a : A} → get_elem? xs i ≡ some a → read xs i ≡ ok a
  unfolding read
  read_lem xs i e = ground arith

  pub read_fault : (xs : List A) (i : ℕ) → get_elem? xs i ≡ none → read xs i ≡ fault
  unfolding read
  read_fault xs i e = ground arith

  pub write_lem : (xs : List A) (i : ℕ) (v : A) → i < length xs → write xs i v ≡ ok (set xs i v)
  unfolding write
  write_lem xs i v h = ground arith

  pub write_fault : (xs : List A) (i : ℕ) (v : A) → length xs ≤ i → write xs i v ≡ fault
  unfolding write
  write_fault xs i v h = ground arith
