-- ===== src/Ring/Position.antt =====
-- Positions in a circular array of `n` slots.
use rfdts.Base.{ℕ, ◌+◌, ◌-◌, ◌^◌, ◌≤◌, ◌<◌, ◌≡◌, ◌≢◌, arith, ltb, if◌then◌else◌}
use rfdts.Ring.{step32, step64}

-- The slot `k` places after slot `f`.
abbrev pub offset : ℕ → ℕ → ℕ → ℕ
offset n f k = if ltb (f + k) n then f + k else f + k - n

pub step32_lem : (n i : ℕ) → i < n → n < 2 ^ 32 → step32 n i ≡ offset n i 1
unfolding step32
step32_lem n i h w = ground arith

pub step64_lem : (n i : ℕ) → i < n → n < 2 ^ 32 → step64 n i ≡ offset n i 1
unfolding step64
step64_lem n i h w = ground arith

pub offset-lt : (n f k : ℕ) → f < n → k ≤ n → offset n f k < n
offset-lt n f k h w = ground arith

-- Two places less than a whole turn apart are two slots.
pub offset-ne : (n f j k : ℕ) → f < n → j < k → k < n → offset n f j ≢ offset n f k
offset-ne n f j k h w v e = ground arith

pub offset-offset_one : (n f k : ℕ) → f < n → k < n → offset n (offset n f 1) k ≡ offset n f (k + 1)
offset-offset_one n f k h w = ground arith

pub offset_one-offset : (n f k : ℕ) → f < n → k < n → offset n (offset n f k) 1 ≡ offset n f (k + 1)
offset_one-offset n f k h w = ground arith

pub offset_zero : (n f : ℕ) → f < n → offset n f 0 ≡ f
offset_zero n f h = ground arith

pub offset_turn : (n f : ℕ) → f < n → offset n f n ≡ f
offset_turn n f h = ground arith
