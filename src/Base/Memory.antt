-- ===== src/Base/Memory.antt =====
-- Heap blocks: what `new T[n]()` returns, with the address of its first element.
use Prim.Native.Nat.{ℕ, ◌<◌, ◌≤◌}
use mathlib.Core.Path.{◌≡◌}
use mathlib.Core.List.{List, []}
use native.Mathlib.Omega.{arith}
use rfdts.Base.Lists.{length, set, replicate}
use rfdts.Base.Results.{Outcome, ok, fault, ◌>>=◌, read, write, write_lem, write_fault}

-- `base` is 0 for `nullptr`, which has no cells.
pub record Array {ℓ} (A : Type ℓ) : Type ℓ where
  pub base : ℕ
  pub cells : List A

module _ {ℓ} {A : Type ℓ} where
  abbrev pub null : Array A
  null = record { base = 0; cells = [] }

  -- `new A[n]()` at the address that the allocator chose; every element starts as `a`.
  abbrev pub allocate : ℕ → ℕ → A → Array A
  allocate base n a = record { base = base; cells = replicate n a }

  abbrev pub load : Array A → ℕ → Outcome A
  load a i = read a.cells i

  abbrev pub put_cells : Array A → List A → Array A
  put_cells a xs = record { base = a.base; cells = xs }

  unfoldable pub store : Array A → ℕ → A → Outcome (Array A)
  store a i v = write a.cells i v >>= λ xs. ok (put_cells a xs)

  pub store_lem :
      (a : Array A) (i : ℕ) (v : A)
      → i < length a.cells
      → store a i v ≡ ok (put_cells a (set a.cells i v))
  unfolding store
  store_lem a i v h = ground (arith, write_lem a.cells i v h)

  pub store_fault : (a : Array A) (i : ℕ) (v : A) → length a.cells ≤ i → store a i v ≡ fault
  unfolding store
  store_fault a i v h = ground (arith, write_fault a.cells i v h)
