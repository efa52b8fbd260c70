-- ===== src/Pool.antt =====
-- What the program's pools promise their users, and what a program of users that only return
-- what they took may rely on. The pools are those of src/wr_pool.hpp and src/mem_pool.hpp.
pub mod Users
use rfdts.Base.{ℕ, ◌<◌, ◌≡◌, ◌≢◌, List, [], ◌∷◌, ◌++◌, Option, some, Outcome, ok, length}

-- A pool of `size` work requests. `Repr p q` says that the pool `p` is sound and that the free
-- work requests are those of `q`, the next to be handed out first. `Way` names the pool's calls
-- that take one.
pub record PoolLaws : Type 1 where
  pub P : Type 0
  pub size : ℕ
  pub Way : Type 0
  pub get : Way → P → Outcome (Option ℕ × P)
  pub put : P → Option ℕ → Outcome P
  pub Repr : P → List ℕ → Type 0
  pub get_cons :
      (w : Way) (p : P) (x : ℕ) (q : List ℕ)
      → Repr p (x ∷ q)
      → (p' : P) × (get w p ≡ ok (some x, p')) × Repr p' q
  pub get_nil : (w : Way) (p : P) → Repr p [] → (r : Option ℕ × P) → get w p ≢ ok r
  pub put_room :
      (p : P) (q : List ℕ) (e : ℕ)
      → Repr p q
      → e < size
      → length q < size
      → (p' : P) × (put p (some e) ≡ ok p') × Repr p' (q ++ e ∷ [])
