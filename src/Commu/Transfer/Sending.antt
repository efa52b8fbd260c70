-- ===== src/Commu/Transfer/Sending.antt =====
-- What the client of src/commu.cpp does with the elements that wait to be sent.
use rfdts.Base.{
  ℕ, zero, suc, ◌+◌, ◌≤◌, ◌<◌, ◌≡◌, refl, sym, ◌∙◌, ap, subst, List, [], ◌∷◌, ◌++◌, Bool, true,
  false, ok, blocked, Outcome, ne→==, length, length-append, arith,
}
use native.Mathlib.Decide.{ℕ_discrete}
use mathlib.Core.List.{append_assoc, append-nil}
use rfdts.Sem.Api.{SemApi}
use rfdts.Queue.{Build}
use rfdts.Queue.Repr.{Repr, get_first, get_waits, put_last}
use rfdts.Queue.Life.{elenum-length}
use rfdts.Commu.Transfer.{PostApi, Client, send_one, send_while, send_rest, send}

module _ (api : SemApi) (ibv : PostApi) (build : Build) where
  open api use {S, value_max}
  open ibv use {P, posted, capacity}

  -- `xs` waits, `ys` is being sent, and `zs` has been posted; there is room for all of it.
  pub record Holding (c : Client S P) (xs ys zs : List ℕ) : Type 0 where
    pub waiting : Repr api build c.waiting xs
    pub sending : Repr api build c.sending ys
    pub posted_eq : posted c.qp ≡ zs
    pub room : length ys + length xs ≤ c.sending.rqnum
    pub below : length ys + length xs ≤ value_max
    pub accepts : length zs + length xs ≤ capacity

  pub record Sent (o : Outcome (Client S P)) (xs ys zs : List ℕ) : Type 0 where
    pub after : Client S P
    pub returns : o ≡ ok after
    pub holding : Holding after xs ys zs

  send_one-Sent :
      (c : Client S P) (x : ℕ) (xs ys zs : List ℕ)
      → Holding c (x ∷ xs) ys zs
      → Sent (send_one api ibv build c) xs (ys ++ x ∷ []) (zs ++ x ∷ [])
  unfolding send_one
  send_one-Sent c x xs ys zs h =
      let got = get_first api build c.waiting x xs h.waiting in
      let (qp, taken, posted_eq) =
        ibv.post_lem c.qp x (rw h.posted_eq (omega (arith, h.accepts))) in
      let put =
        put_last api build c.sending ys x h.sending (omega (arith, h.room))
          (omega (arith, h.below)) in
      let more : length (ys ++ x ∷ []) ≡ length ys + 1 = length-append ys (x ∷ []) in
      let more' : length (zs ++ x ∷ []) ≡ length zs + 1 = length-append zs (x ∷ []) in
      record {
        after = record { waiting = got.after; sending = put.after; qp = qp };
        returns = rw (got.returns, taken, put.returns) refl;
        holding = record {
          waiting = got.sound;
          sending = put.sound;
          posted_eq = posted_eq ∙ ap (λ z. z ++ x ∷ []) h.posted_eq;
          room = omega (arith, more, h.room, put.same);
          below = omega (arith, more, h.below);
          accepts = omega (arith, more', h.accepts);
        };
      }

  -- One element moved, and then the others.
  regroup :
      (c : Client S P) (rest ys zs : List ℕ) (x : ℕ) (xs : List ℕ)
      → Holding c rest (ys ++ x ∷ [] ++ xs) (zs ++ x ∷ [] ++ xs)
      → Holding c rest (ys ++ (x ∷ xs)) (zs ++ (x ∷ xs))
  regroup c rest ys zs x xs h =
      subst (λ l. Holding c rest l (zs ++ (x ∷ xs))) (append_assoc ys (x ∷ []) xs)
        (subst (λ l. Holding c rest (ys ++ x ∷ [] ++ xs) l) (append_assoc zs (x ∷ []) xs) h)

  send_rest-Sent :
      (fuel : ℕ) (c : Client S P) (xs ys zs : List ℕ)
      → Holding c xs ys zs
      → length xs < fuel
      → Sent (send_rest api ibv build fuel c) [] (ys ++ xs) (zs ++ xs)
  unfolding send_rest
  send_rest-Sent zero c xs ys zs h w = absurd (omega (arith, w))
  send_rest-Sent (suc fuel) c [] ys zs h w = record {
    after = c;
    returns = rw (elenum-length api build c.waiting [] h.waiting) refl;
    holding = rw (append-nil ys, append-nil zs) h;
  }
  send_rest-Sent (suc fuel) c (x ∷ xs) ys zs h w =
      let one = send_one-Sent c x xs ys zs h in
      let rest =
        send_rest-Sent fuel one.after xs (ys ++ x ∷ []) (zs ++ x ∷ []) one.holding
          (omega (arith, w)) in
      record {
        after = rest.after;
        returns =
            rw
              (
                elenum-length api build c.waiting (x ∷ xs) h.waiting,
                ne→== (length (x ∷ xs)) 0 (omega arith),
                one.returns,
                rest.returns,
              )
              refl;
        holding = regroup rest.after [] ys zs x xs rest.holding;
      }

  -- What the first loop leaves waiting.
  pub record SentPart (o : Outcome (Client S P)) (xs ys zs : List ℕ) : Type 0 where
    pub done : List ℕ
    pub left : List ℕ
    pub split : xs ≡ done ++ left
    pub sent : Sent o left (ys ++ done) (zs ++ done)

  send_while_stops :
      (fuel : ℕ) (start : ℕ → Bool) (k : ℕ) (c : Client S P) (xs ys zs : List ℕ)
      → Holding c xs ys zs
      → start k ≡ false
      → SentPart (send_while api ibv build (suc fuel) start k c) xs ys zs
  unfolding send_while
  send_while_stops fuel start k c xs ys zs h off = record {
    done = [];
    left = xs;
    split = refl;
    sent = record {
      after = c;
      returns = rw off refl;
      holding = rw (append-nil ys, append-nil zs) h;
    };
  }

  send_while-SentPart :
      (fuel : ℕ) (start : ℕ → Bool) (k n : ℕ) (c : Client S P) (xs ys zs : List ℕ)
      → Holding c xs ys zs
      → ((j : ℕ) → j < n → start j ≡ true)
      → start n ≡ false
      → k ≤ n
      → n ≤ k + length xs
      → n < k + fuel
      → SentPart (send_while api ibv build fuel start k c) xs ys zs
  unfolding send_while
  send_while-SentPart zero start k n c xs ys zs h on off k_le n_le w =
      absurd (omega (arith, w, k_le))
  send_while-SentPart (suc fuel) start k n c [] ys zs h on off k_le n_le w =
      let same : n ≡ k = omega (arith, k_le, n_le) in
      send_while_stops fuel start k c [] ys zs h (rw (← same) off)
  send_while-SentPart (suc fuel) start k n c (x ∷ xs) ys zs h on off k_le n_le w =
      elim (ℕ_discrete n k) [
        | yes e ↦ send_while_stops fuel start k c (x ∷ xs) ys zs h (rw (← e) off)
        | no d ↦
            let k_lt : k < n = omega (arith, d, k_le) in
            let one = send_one-Sent c x xs ys zs h in
            let part =
              send_while-SentPart fuel start (k + 1) n one.after xs (ys ++ x ∷ []) (zs ++ x ∷ [])
                one.holding on off (omega (arith, k_lt)) (omega (arith, n_le)) (omega (arith, w)) in
            record {
              done = x ∷ part.done;
              left = part.left;
              split = ap (◌∷◌ x) part.split;
              sent = record {
                after = part.sent.after;
                returns = rw (on k k_lt, one.returns, part.sent.returns) refl;
                holding = regroup part.sent.after part.left ys zs x part.done part.sent.holding;
              };
            }
      ]

  -- When `start` is cleared after no more rounds than elements wait, and queues, semaphores and
  -- queue pair have room for all, the client's thread returns within as many rounds as wait and
  -- one more, having posted the waiting work requests in order, each once, and moved them to the
  -- queue of those being sent.
  pub send-Sent :
      (fuel : ℕ) (start : ℕ → Bool) (n : ℕ) (c : Client S P) (xs ys zs : List ℕ)
      → Holding c xs ys zs
      → ((j : ℕ) → j < n → start j ≡ true)
      → start n ≡ false
      → n ≤ length xs
      → length xs < fuel
      → Sent (send api ibv build fuel start c) [] (ys ++ xs) (zs ++ xs)
  unfolding send
  send-Sent fuel start n c xs ys zs h on off n_le w =
      let part =
        send_while-SentPart fuel start 0 n c xs ys zs h on off (omega arith) (omega (arith, n_le))
          (omega (arith, n_le, w)) in
      let size : length xs ≡ length part.done + length part.left =
        ap length part.split ∙ length-append part.done part.left in
      let whole : (l : List ℕ) → l ++ part.done ++ part.left ≡ l ++ xs =
        λ l. append_assoc l part.done part.left ∙ ap (λ z. l ++ z) (sym part.split) in
      let rest =
        send_rest-Sent fuel part.sent.after part.left (ys ++ part.done) (zs ++ part.done)
          part.sent.holding (omega (arith, size, w)) in
      record {
        after = rest.after;
        returns = rw (part.sent.returns, rest.returns) refl;
        holding =
            subst (λ l. Holding rest.after [] l (zs ++ xs)) (whole ys)
              (subst (λ l. Holding rest.after [] (ys ++ part.done ++ part.left) l) (whole zs)
                rest.holding);
      }

  send_one_waits :
      (c : Client S P) (ys zs : List ℕ) → Holding c [] ys zs → send_one api ibv build c ≡ blocked
  unfolding send_one
  send_one_waits c ys zs h = rw (get_waits api build c.waiting h.waiting) refl

  -- x
  pub send_waits :
      (fuel : ℕ) (start : ℕ → Bool) (k : ℕ) (c : Client S P) (xs ys zs : List ℕ)
      → Holding c xs ys zs
      → ((j : ℕ) → j ≤ k + length xs → start j ≡ true)
      → send_while api ibv build fuel start k c ≡ blocked
  unfolding send_while
  send_waits zero start k c xs ys zs h on = refl
  send_waits (suc fuel) start k c [] ys zs h on =
      rw (on k (omega arith), send_one_waits c ys zs h) refl
  send_waits (suc fuel) start k c (x ∷ xs) ys zs h on =
      let one = send_one-Sent c x xs ys zs h in
      let rest =
        send_waits fuel start (k + 1) one.after xs (ys ++ x ∷ []) (zs ++ x ∷ []) one.holding
          (λ j le. on j (omega (arith, le))) in
      rw (on k (omega arith), one.returns) rest
