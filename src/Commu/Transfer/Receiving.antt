-- ===== src/Commu/Transfer/Receiving.antt =====
-- The server of src/commu.cpp posts work requests ahead, from the pool into the queue of those that
-- are being received.
use rfdts.Base.{
  ℕ, ◌+◌, ◌≤◌, ◌≡◌, refl, ◌∙◌, ap, subst, List, [], ◌∷◌, ◌++◌, ok, Outcome, length, length-append,
  arith,
}
use mathlib.Core.List.{append_assoc, append-nil}
use rfdts.Sem.Api.{SemApi}
use rfdts.Queue.{Build}
use rfdts.Queue.Repr as QueueRepr
use rfdts.WrPool.Repr as PoolRepr
use rfdts.Commu.Transfer.{PostApi, Server, recv_one, recv_ahead}

module _ (api : SemApi) (ibv : PostApi) (build : Build) where
  open api use {S, value_max}
  open ibv use {P, posted, capacity}

  -- The pool has `free`, `xs` are being received, and `zs` has been posted; there is room for all
  -- that is free.
  pub record Ready (s : Server S P) (free xs zs : List ℕ) : Type 0 where
    pub pool : PoolRepr.Repr s.pool free
    pub receiving : QueueRepr.Repr api build s.receiving xs
    pub posted_eq : posted s.qp ≡ zs
    pub room : length xs + length free ≤ s.receiving.rqnum
    pub below : length xs + length free ≤ value_max
    pub accepts : length zs + length free ≤ capacity

  pub record Ahead (o : Outcome (Server S P)) (free xs zs : List ℕ) : Type 0 where
    pub after : Server S P
    pub returns : o ≡ ok after
    pub ready : Ready after free xs zs

  pub recv_one-Ahead :
      (s : Server S P) (x : ℕ) (free xs zs : List ℕ)
      → Ready s (x ∷ free) xs zs
      → Ahead (recv_one api ibv build s) free (xs ++ x ∷ []) (zs ++ x ∷ [])
  unfolding recv_one
  recv_one-Ahead s x free xs zs h =
      let got = PoolRepr.get_next s.pool x free h.pool in
      let (qp, taken, posted_eq) =
        ibv.post_lem s.qp x (rw h.posted_eq (omega (arith, h.accepts))) in
      let put =
        QueueRepr.put_last api build s.receiving xs x h.receiving (omega (arith, h.room))
          (omega (arith, h.below)) in
      let more : length (xs ++ x ∷ []) ≡ length xs + 1 = length-append xs (x ∷ []) in
      let more' : length (zs ++ x ∷ []) ≡ length zs + 1 = length-append zs (x ∷ []) in
      record {
        after = record { pool = got.after; receiving = put.after; sem = s.sem; qp = qp };
        returns = rw (got.returns, taken, put.returns) refl;
        ready = record {
          pool = got.sound;
          receiving = put.sound;
          posted_eq = posted_eq ∙ ap (λ z. z ++ x ∷ []) h.posted_eq;
          room = omega (arith, more, h.room, put.same);
          below = omega (arith, more, h.below);
          accepts = omega (arith, more', h.accepts);
        };
      }

  -- When pool, queue, semaphore and queue pair have room for the free work requests, the loop of
  -- the server that posts ahead takes as many as it has rounds from the pool in order, posts them
  -- and puts them into the queue in that order, and leaves the others free.
  pub recv_ahead-Ahead :
      (s : Server S P) (ws free xs zs : List ℕ)
      → Ready s (ws ++ free) xs zs
      → Ahead (recv_ahead api ibv build (length ws) s) free (xs ++ ws) (zs ++ ws)
  unfolding recv_ahead
  recv_ahead-Ahead s [] free xs zs h = record {
    after = s;
    returns = refl;
    ready = rw (append-nil xs, append-nil zs) h;
  }
  recv_ahead-Ahead s (w ∷ ws) free xs zs h =
      let one = recv_one-Ahead s w (ws ++ free) xs zs h in
      let rest = recv_ahead-Ahead one.after ws free (xs ++ w ∷ []) (zs ++ w ∷ []) one.ready in
      record {
        after = rest.after;
        returns = rw one.returns rest.returns;
        ready =
            subst (λ l. Ready rest.after free l (zs ++ (w ∷ ws))) (append_assoc xs (w ∷ []) ws)
              (subst (λ l. Ready rest.after free (xs ++ w ∷ [] ++ ws) l)
                (append_assoc zs (w ∷ []) ws) rest.ready);
      }
