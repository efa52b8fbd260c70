-- ===== src/Ring.antt =====
-- The circular array of pointers that every pool and queue of the program keeps, and the
-- statements on it that their members repeat.
pub mod Position
pub mod Holds
pub mod Flagged
pub mod Clear
use rfdts.Base.{
  ℕ, ◌+◌, ◌-◌, Bool, true, Outcome, ok, blocked, ◌>>=◌, leb, if◌then◌else◌, Array, load, store,
}
use rfdts.Base.Words.{u32, u64}

pub record Ring {ℓ} (A : Type ℓ) : Type ℓ where
  pub slots : Array A
  pub front : ℕ
  pub rear : ℕ

-- `while (!flags[rear].compare_exchange_weak(false, true))`: with no other thread at work the loop
-- ends at once or never.
unfoldable pub claim_flag : Array Bool → ℕ → Outcome (Array Bool)
claim_flag flags i = do flag ← load flags i; if flag then blocked else store flags i true

-- `if (++i >= n) i -= n;` on a uint32_t `i`.
unfoldable pub step32 : ℕ → ℕ → ℕ
step32 n i = let j = u32 (i + 1) in if leb n j then j - n else j

-- The same on a uint64_t local, which is then stored into a uint32_t.
unfoldable pub step64 : ℕ → ℕ → ℕ
step64 n i = let j = u64 (i + 1) in u32 (if leb n j then j - n else j)

module _ {ℓ} {A : Type ℓ} where
  -- `rq[rear] = e`, then `rear` moves on.
  unfoldable pub put_slot : (ℕ → ℕ) → Ring A → A → Outcome (Ring A)
  put_slot step r e = do
    slots ← store r.slots r.rear e
    ok (record r { slots = slots; rear = step r.rear })

  -- `temp = rq[front]`, then `front` moves on.
  unfoldable pub read_slot : (ℕ → ℕ) → Ring A → Outcome (A × Ring A)
  read_slot step r = do temp ← load r.slots r.front; ok (temp, record r { front = step r.front })

  -- `temp = rq[front]; rq[front] = nullptr`, then `front` moves on.
  unfoldable pub take_slot : A → (ℕ → ℕ) → Ring A → Outcome (A × Ring A)
  take_slot nullptr step r = do
    temp ← load r.slots r.front
    slots ← store r.slots r.front nullptr
    ok (temp, record r { slots = slots; front = step r.front })
