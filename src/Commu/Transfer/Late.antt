-- ===== src/Commu/Transfer/Late.antt =====
-- The end of the server's thread in src/commu.cpp: it receives until a wait for the semaphore runs
-- out of time.
use rfdts.Base.{ℕ, ◌+◌, ◌≤◌, ◌≡◌, refl, ap, subst, List, [], ◌∷◌, ◌++◌, ok, Outcome, length, arith}
use rfdts.Base.{
  sym, suc, zero, ◌<◌, bind_ok, ok_inj, exited, errno, einval, Bool-cases, ltb, inl, inr,
}
use rfdts.Sem.{PosixSem}
use rfdts.Sem.Api.{Timespec, billion}
use rfdts.Sem.Calls.{Counts, timewait_zero, timewait-Counts}
use rfdts.Queue
use rfdts.WrPool
use rfdts.Commu.Transfer.{post, recv_rest}
use mathlib.Core.List.{append_assoc, append-nil}
use rfdts.Sem.Api.{SemApi}
use rfdts.Queue.{Build}
use rfdts.Commu.Transfer.{PostApi, Server, recv_one}
use rfdts.Commu.Transfer.Receiving.{Ready, Ahead, recv_one-Ahead}

module _ (api : SemApi) (ibv : PostApi) (build : Build) where
  open api use {S, value_max}
  open ibv use {P, posted, capacity}

  recv_one-sem : (s t : Server S P) → recv_one api ibv build s ≡ ok t → t.sem ≡ s.sem
  unfolding recv_one
  recv_one-sem s t e =
      let (got, taken, e1) = bind_ok (WrPool.get s.pool) _ e in
      let (qp, accepted, e2) = bind_ok (post (ibv.ibv_post (got.0) s.qp)) _ e1 in
      let (receiving, kept, e3) = bind_ok (Queue.put api build s.receiving (got.0)) _ e2 in
      ap (λ z. z.sem) (sym (ok_inj e3))

  Ready-sem :
      {s : Server S P} {free xs zs : List ℕ} (sem : PosixSem S)
      → Ready api ibv build s free xs zs
      → Ready api ibv build (record s { sem = sem }) free xs zs
  Ready-sem sem h = record {
    pool = h.pool;
    receiving = h.receiving;
    posted_eq = h.posted_eq;
    room = h.room;
    below = h.below;
    accepts = h.accepts;
  }

  -- How the loop ends that receives until a wait runs out of time.
  pub data Late (o : Outcome (Server S P)) (nsec : ℕ) (free xs zs : List ℕ) : Type 0 where
    in_time : nsec < billion → Ahead api ibv build o free xs zs → Late o nsec free xs zs
    carried : billion ≤ nsec → o ≡ exited (errno einval) → Late o nsec free xs zs

  recv_rest_stops :
      (fuel : ℕ) (timeout : ℕ → Timespec) (k : ℕ) (s : Server S P) (free xs zs : List ℕ)
      → Ready api ibv build s free xs zs
      → Counts api s.sem 0
      → Late (recv_rest api ibv build (suc fuel) timeout k s) (timeout k).tv_nsec free xs zs
  unfolding recv_rest
  recv_rest_stops fuel timeout k s free xs zs h c =
      let waited = timewait_zero api (timeout k) s.sem c in
      elim (Bool-cases (ltb (timeout k).tv_nsec billion)) [
        | inl under ↦ in_time (ground (arith, under)) (record {
          after = record s { sem = s.sem };
          returns = rw (waited, under) refl;
          ready = h;
        })
        | inr over ↦ carried (ground (arith, over)) (rw (waited, over) refl)
      ]

  regroup :
      (o : Outcome (Server S P)) (nsec : ℕ) (free xs zs : List ℕ) (v : ℕ) (ws : List ℕ)
      → Late o nsec free (xs ++ v ∷ [] ++ ws) (zs ++ v ∷ [] ++ ws)
      → Late o nsec free (xs ++ (v ∷ ws)) (zs ++ (v ∷ ws))
  regroup o nsec free xs zs v ws l =
      subst (λ m. Late o nsec free m (zs ++ (v ∷ ws))) (append_assoc xs (v ∷ []) ws)
        (subst (λ m. Late o nsec free (xs ++ v ∷ [] ++ ws) m) (append_assoc zs (v ∷ []) ws) l)

  -- The server's last loop, entered when the semaphore has been posted for each of some free work
  -- requests and there is room for all that are free, takes these in order, posts them and puts
  -- them into the queue, within as many rounds as they are and one more; then it returns if the
  -- time given to the last wait has fewer than a billion nanoseconds, and otherwise ends the
  -- program with EINVAL.
  pub recv_rest-Late :
      (fuel : ℕ) (timeout : ℕ → Timespec) (k : ℕ) (s : Server S P) (ws free xs zs : List ℕ)
      → Ready api ibv build s (ws ++ free) xs zs
      → Counts api s.sem (length ws)
      → length ws < fuel
      → Late
          (recv_rest api ibv build fuel timeout k s)
          (timeout (k + length ws)).tv_nsec
          free
          (xs ++ ws)
          (zs ++ ws)
  unfolding recv_rest
  recv_rest-Late zero timeout k s ws free xs zs h c w = absurd (omega (arith, w))
  recv_rest-Late (suc fuel) timeout k s [] free xs zs h c w =
      let here : k + length {A = ℕ} [] ≡ k = omega arith in
      rw (append-nil xs, append-nil zs, here) (recv_rest_stops fuel timeout k s free xs zs h c)
  recv_rest-Late (suc fuel) timeout k s (v ∷ ws) free xs zs h c w =
      let (sem, waited, c') = timewait-Counts api (timeout k) s.sem (length ws) c in
      let one =
        recv_one-Ahead api ibv build (record s { sem = sem }) v (ws ++ free) xs zs
          (Ready-sem sem h) in
      let sem_eq = recv_one-sem (record s { sem = sem }) one.after one.returns in
      let rest =
        recv_rest-Late fuel timeout (k + 1) one.after ws free (xs ++ v ∷ []) (zs ++ v ∷ [])
          one.ready (rw sem_eq c') (omega (arith, w)) in
      let next : k + 1 + length ws ≡ k + length (v ∷ ws) = omega arith in
      let onward : recv_rest api ibv build (suc fuel) timeout k s
          ≡ recv_rest api ibv build fuel timeout (k + 1) one.after =
        rw (waited, one.returns) refl in
      subst
        (λ j.
          Late (recv_rest api ibv build (suc fuel) timeout k s) (timeout j).tv_nsec free
            (xs ++ (v ∷ ws)) (zs ++ (v ∷ ws)))
        next
        (regroup (recv_rest api ibv build (suc fuel) timeout k s)
          ((timeout (k + 1 + length ws)).tv_nsec) free xs zs v ws
          (subst
            (λ o.
              Late o ((timeout (k + 1 + length ws)).tv_nsec) free (xs ++ v ∷ [] ++ ws)
                (zs ++ v ∷ [] ++ ws))
            (sym onward) rest))
