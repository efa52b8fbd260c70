-- ===== src/MemPool/SpscAtomic/Threads/Alone.antt =====
-- The steps of `get` and of `put` of `spsc_atomic_mem_pool` in src/mem_pool.hpp, with no other
-- thread at work, and the calls that MemPool/SpscAtomic has them as.
use rfdts.Base.{
  ℕ, ◌≡◌, ◌≢◌, refl, ◌∙◌, ap, subst, List, ◌∷◌, ◌++◌, Option, none, some, ok, arith, load, store,
  bind_ok, ok_inj,
}
use rfdts.Ring.{Ring, step32, step64, take_slot, put_slot}
use rfdts.Buffers.{stamp}
use rfdts.MemPool.Waiting.{await}
use rfdts.MemPool.SpscAtomic.{SpscAtomicMemPool, take_after, get, put}
use rfdts.MemPool.SpscAtomic.Threads.{
  outside, resting, load_front, pass, fetch, clear, publish_front, hand_out, load_rear, store_slot,
  publish_rear, System, reads, writes, Reach, start, later,
}

await-ok : (rear front : ℕ) → await 1 (λ k. rear) 0 front ≡ ok tt → rear ≢ front
unfolding await
await-ok rear front e = ground arith

taken_out :
    (step : ℕ → ℕ) (r : Ring (Option ℕ)) (temp : Option ℕ) (r' : Ring (Option ℕ))
    → take_slot none step r ≡ ok (temp, r')
    → (slots : _) × (load r.slots r.front ≡ ok temp)
      × (store r.slots r.front none ≡ ok slots)
      × (record r { slots = slots; front = step r.front } ≡ r')
unfolding take_slot
taken_out step r temp r' e =
    let (t, loaded, e1) = bind_ok (load r.slots r.front) _ e in
    let (slots, emptied, e2) = bind_ok (store r.slots r.front none) _ e1 in
    let same = ok_inj e2 in (slots, loaded ∙ ap (λ z. ok (z.0)) same, emptied, ap (λ z. z.1) same)

abbrev pub quiet : SpscAtomicMemPool → List ℕ → System
quiet p held = record { pool = p; reader = outside; writer = resting; held = held }

-- A call of `get` that takes a work request from a `spsc_atomic_mem_pool`, with no other thread
-- at work, is a run of the reader's steps from before the call to after it.
pub get_alone :
    (p p' : SpscAtomicMemPool) (x : ℕ) (held : List ℕ)
    → get (λ k. p.ringqueue.rear) 1 p ≡ ok (some x, p')
    → Reach (quiet p held) (quiet p' (x ∷ held))
unfolding get take_after
get_alone p p' x held e =
    let r = p.ringqueue in
    let (u, waited, e1) = bind_ok (await 1 (λ k. r.rear) 0 r.front) _ e in
    let ((temp, r'), took, e2) = bind_ok (take_slot none (step32 p.rqnum) r) _ e1 in
    let (b, stamped, e3) = bind_ok (stamp p.buffers temp) _ e2 in
    let temp_eq : temp ≡ some x = ap (λ z. z.0) (ok_inj e3) in
    let (slots, loaded, emptied, r_eq) = taken_out (step32 p.rqnum) r temp r' took in
    let p_eq : record p { buffers = b; ringqueue = r' } ≡ p' = ap (λ z. z.1) (ok_inj e3) in
    let p_eq' : record p {
      buffers = b;
      ringqueue = record r { slots = slots; front = step32 p.rqnum r.front };
    }
        ≡ p' =
      ap (λ z. record p { buffers = b; ringqueue = z }) r_eq ∙ p_eq in
    subst (λ z. Reach (quiet p held) (quiet z (x ∷ held))) p_eq'
      (later
        (later
          (later
            (later
              (later (later start (reads load_front))
                (reads (pass (await-ok r.rear r.front waited))))
              (reads (fetch (rw (← temp_eq) loaded))))
            (reads (clear emptied)))
          (reads publish_front))
        (reads (hand_out (rw (← temp_eq) stamped))))

-- A call of `put` that gives a held work request back to a `spsc_atomic_mem_pool`, with no other
-- thread at work, is a run of the writer's steps from before the call to after it.
pub put_alone :
    (p p' : SpscAtomicMemPool) (before after : List ℕ) (e : ℕ)
    → put p (some e) ≡ ok p'
    → Reach (quiet p (before ++ e ∷ after)) (quiet p' (before ++ after))
unfolding put put_slot
put_alone p p' before after e q =
    let r = p.ringqueue in
    let (r', placed, q1) = bind_ok (put_slot (step64 p.rqnum) r (some e)) _ q in
    let (slots, kept, q2) = bind_ok (store r.slots r.rear (some e)) _ placed in
    let p_eq : record p { ringqueue = record r { slots = slots; rear = step64 p.rqnum r.rear } }
        ≡ p' =
      ap (λ z. record p { ringqueue = z }) (ok_inj q2) ∙ ok_inj q1 in
    subst (λ z. Reach (quiet p (before ++ e ∷ after)) (quiet z (before ++ after))) p_eq
      (later
        (later (later start (writes (load_rear before after e refl))) (writes (store_slot kept)))
        (writes publish_rear))
