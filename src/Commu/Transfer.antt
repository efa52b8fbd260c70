-- ===== src/Commu/Transfer.antt =====
-- The thread of `commu` in src/commu.cpp that posts work requests: `__send_or_recv` in the client's
-- build, which sends, and in the server's, which receives. The two calls of libibverbs are a
-- parameter.
pub mod Sending
pub mod Receiving
pub mod Late
mod Tests
use rfdts.Base.{
  ℕ, zero, suc, ◌+◌, ◌<◌, ◌≡◌, List, [], ◌∷◌, ◌++◌, Bool, Option, none, some, Outcome, ok, blocked,
  exited, errno, Errno, etimedout, ◌>>=◌, ltb, ◌==◌, if◌then◌else◌, length,
}
use rfdts.Sem
use rfdts.Sem.Api.{SemApi, Timespec}
use rfdts.Sem.{PosixSem}
use rfdts.Queue
use rfdts.Queue.{Queue, Build}
use rfdts.WrPool
use rfdts.WrPool.{WrPool}

pub data Posted (P : Type 0) : Type 0 where
  accepted : P → Posted P
  refused : Errno → Posted P

-- `ibv_post_send` or `ibv_post_recv` on the queue pair, whose state is a `P`.
pub record PostApi : Type 1 where
  pub P : Type 0
  pub posted : P → List ℕ  -- the work requests, the first posted first
  pub capacity : ℕ
  pub ibv_post : Option ℕ → P → Posted P
  -- A work request that there is room for is accepted.
  pub post_lem :
      (p : P) (x : ℕ)
      → length (posted p) < capacity
      → (p' : P) × (ibv_post (some x) p ≡ accepted p') × (posted p' ≡ posted p ++ x ∷ [])

abbrev pub post : {P : Type 0} → Posted P → Outcome P
post (accepted p) = ok p
post (refused e) = exited (errno e)

-- What the client's thread works on: the queues `nosend_or_recving` and `sending_or_nohand`.
pub record Client (S P : Type 0) : Type 0 where
  pub waiting : Queue S ℕ
  pub sending : Queue S ℕ
  pub qp : P

-- What the server's thread works on.
pub record Server (S P : Type 0) : Type 0 where
  pub pool : WrPool
  pub receiving : Queue S ℕ
  pub sem : PosixSem S
  pub qp : P

module _ (api : SemApi) (ibv : PostApi) (build : Build) where
  open api use {S}
  open ibv use {P}

  -- The body of both of the client's loops.
  unfoldable pub send_one : Client S P → Outcome (Client S P)
  send_one c = do
    (send_wr, waiting) ← Queue.get api build c.waiting
    qp ← post (ibv.ibv_post send_wr c.qp)
    sending ← Queue.put api build c.sending send_wr
    ok (record { waiting = waiting; sending = sending; qp = qp })

  -- `while (start)`: `start k` is what its `k`-th test loads.
  unfoldable pub send_while : ℕ → (ℕ → Bool) → ℕ → Client S P → Outcome (Client S P)
  send_while zero start k c = blocked
  send_while (suc fuel) start k c =
      let next = send_one c >>= λ c. send_while fuel start (k + 1) c in
      if start k then next else ok c

  -- `while (get_rq_elenum())`
  unfoldable pub send_rest : ℕ → Client S P → Outcome (Client S P)
  send_rest zero c = blocked
  send_rest (suc fuel) c = do
    n ← Queue.get_rq_elenum api c.waiting
    let next = send_one c >>= λ c. send_rest fuel c
    if n == 0 then ok c else next

  unfoldable pub send : ℕ → (ℕ → Bool) → Client S P → Outcome (Client S P)
  send fuel start c = send_while fuel start 0 c >>= send_rest fuel

  -- The body of the server's three loops.
  unfoldable pub recv_one : Server S P → Outcome (Server S P)
  recv_one s = do
    (recv_wr, pool) ← WrPool.get s.pool
    qp ← post (ibv.ibv_post recv_wr s.qp)
    receiving ← Queue.put api build s.receiving recv_wr
    ok (record s { pool = pool; receiving = receiving; qp = qp })

  -- The loop that posts ahead, with `rounds` rounds left.
  unfoldable pub recv_ahead : ℕ → Server S P → Outcome (Server S P)
  recv_ahead zero s = ok s
  recv_ahead (suc rounds) s = recv_one s >>= recv_ahead rounds

  unfoldable pub recv_while : ℕ → (ℕ → Bool) → ℕ → Server S P → Outcome (Server S P)
  recv_while zero start k s = blocked
  recv_while (suc fuel) start k s =
      let next = Sem.wait api s.sem >>= λ sem.
      recv_one (record s { sem = sem }) >>= λ s. recv_while fuel start (k + 1) s in
      if start k then next else ok s

  abbrev pub timed_out : Option Errno → Bool
  timed_out (some Errno.etimedout) = Bool.true
  timed_out _ = Bool.false

  -- `while (timewait(&timeout) != ETIMEDOUT)`, with the time given in each round.
  unfoldable pub recv_rest : ℕ → (ℕ → Timespec) → ℕ → Server S P → Outcome (Server S P)
  recv_rest zero timeout k s = blocked
  recv_rest (suc fuel) timeout k s = do
    (ended, sem) ← Sem.timewait api (timeout k) s.sem
    let s = record s { sem = sem }
    let next = recv_one s >>= λ s. recv_rest fuel timeout (k + 1) s
    if timed_out ended then ok s else next

  -- `pre_recv_wr` is computed in floating point, and bounded by the device's limit.
  unfoldable pub recv : ℕ → ℕ → ℕ → (ℕ → Bool) → (ℕ → Timespec) → Server S P → Outcome (Server S P)
  recv fuel pre_recv_wr max_qp_wr start timeout s = do
    s ← recv_ahead (if ltb max_qp_wr pre_recv_wr then max_qp_wr else pre_recv_wr) s
    s ← recv_while fuel start 0 s
    recv_rest fuel timeout 0 s
