-- ===== src/Ring/Holds.antt =====
-- What a ring holds: the list of the elements from `front` up to `rear`, oldest first.
use rfdts.Base.{
  ℕ, suc, ◌+◌, ◌≤◌, ◌<◌, ◌≡◌, refl, ◌≢◌, ◌∙◌, sym, ap, List, [], ◌∷◌, ◌++◌, some, ok, arith, length,
  get_elem?, set, length-set, length-append, get_elem?-set_self, get_elem?-set_ne, get_elem?-lt,
  get_elem?-append_left, get_elem?-append_end, read_lem, store_lem, put_cells, allocate,
  length-replicate,
}
use native.Mathlib.Decide.{dec_lt}
use rfdts.Ring.{Ring, put_slot, read_slot, take_slot}
use rfdts.Ring.Position.{
  offset, offset-lt, offset-ne, offset-offset_one, offset_one-offset, offset_zero,
}

module _ {ℓ} {A : Type ℓ} where
  pub record Holds (n : ℕ) (r : Ring A) (q : List A) : Type ℓ where
    pub size : length r.slots.cells ≡ n
    pub front_lt : r.front < n
    pub fits : length q ≤ n
    pub rear_eq : r.rear ≡ offset n r.front (length q)
    pub at :
        (k : ℕ) (x : A)
        → get_elem? q k ≡ some x
        → get_elem? r.slots.cells (offset n r.front k) ≡ some x

module _ {ℓ} {A : Type ℓ} {n : ℕ} {r : Ring A} where
  -- A store at `rear` into a ring that is not full appends.
  pub put_slot-Holds :
      (step : ℕ → ℕ) (q : List A) (e : A)
      → Holds n r q
      → length q < n
      → step r.rear ≡ offset n r.rear 1
      → let r' = record r {
        slots = put_cells r.slots (set r.slots.cells r.rear e);
        rear = step r.rear;
      } in
        (put_slot step r e ≡ ok r') × Holds n r' (q ++ e ∷ [])
  unfolding put_slot
  put_slot-Holds step q e h room s = (
    rw (store_lem r.slots r.rear e inside) refl,
    record {
      size = omega (arith, length-set r.slots.cells r.rear e, h.size);
      front_lt = h.front_lt;
      fits = omega (arith, length-append q (e ∷ []));
      rear_eq = ground (
        arith,
        s,
        h.rear_eq,
        length-append q (e ∷ []),
        offset_one-offset n r.front (length q) h.front_lt room,
      );
      at = stored;
    },
  )
    where
      inside : r.rear < length r.slots.cells
      inside = ground (arith, h.size, h.rear_eq, offset-lt n r.front (length q) h.front_lt h.fits)

      stored :
          (k : ℕ) (x : A)
          → get_elem? (q ++ e ∷ []) k ≡ some x
          → get_elem? (set r.slots.cells r.rear e) (offset n r.front k) ≡ some x
      stored k x p = elim (dec_lt k (length q)) [
        | yes old ↦
            get_elem?-set_ne r.slots.cells r.rear (offset n r.front k) e
              (λ c. offset-ne n r.front k (length q) h.front_lt old room (sym c ∙ h.rear_eq))
            ∙ h.at k x (sym (get_elem?-append_left q (e ∷ []) k old) ∙ p)
        | no new ↦
            let last : k ≡ length q =
              omega (arith, get_elem?-lt (q ++ e ∷ []) k p, length-append q (e ∷ [])) in
            let here : offset n r.front k ≡ r.rear = ap (offset n r.front) last ∙ sym h.rear_eq in
            rw here (
              get_elem?-set_self r.slots.cells r.rear e inside
              ∙ sym (get_elem?-append_end q e k last)
              ∙ p)
      ]

  pub front_elem :
      (x : A) (q : List A) → Holds n r (x ∷ q) → get_elem? r.slots.cells r.front ≡ some x
  front_elem x q h = rw (sym (offset_zero n r.front h.front_lt)) (h.at 0 x refl)

  next_at :
      (x : A) (q : List A)
      → Holds n r (x ∷ q)
      → (k : ℕ) (y : A) → get_elem? q k ≡ some y
      → get_elem? r.slots.cells (offset n (offset n r.front 1) k) ≡ some y
  next_at x q h k y p =
      let inside : k < length q = get_elem?-lt q k p in
      let next : offset n (offset n r.front 1) k ≡ offset n r.front (suc k) =
        offset-offset_one n r.front k h.front_lt (omega (arith, h.fits))
        ∙ ap (offset n r.front) (omega arith) in
      rw next (h.at (suc k) y p)

  -- Reading at `front` gives the oldest element; the slot keeps it.
  pub read_slot-Holds :
      (step : ℕ → ℕ) (x : A) (q : List A)
      → Holds n r (x ∷ q)
      → step r.front ≡ offset n r.front 1
      → let r' = record r { front = step r.front } in (read_slot step r ≡ ok (x, r')) × Holds n r' q
  unfolding read_slot
  read_slot-Holds step x q h s = (
    rw (read_lem r.slots.cells r.front (front_elem x q h)) refl,
    record {
      size = h.size;
      front_lt = rw s (offset-lt n r.front 1 h.front_lt (omega (arith, h.fits)));
      fits = omega (arith, h.fits);
      rear_eq =
          ground (arith, s, h.rear_eq, h.fits, offset-offset_one n r.front (length q) h.front_lt);
      at = λ k y p. rw s (next_at x q h k y p);
    },
  )

  -- Taking at `front` gives the oldest element, and clears its slot alone.
  pub take_slot-Holds :
      (nullptr : A) (step : ℕ → ℕ) (x : A) (q : List A)
      → Holds n r (x ∷ q)
      → step r.front ≡ offset n r.front 1
      → let r' = record r {
        slots = put_cells r.slots (set r.slots.cells r.front nullptr);
        front = step r.front;
      } in
        (take_slot nullptr step r ≡ ok (x, r')) × Holds n r' q
  unfolding take_slot
  take_slot-Holds nullptr step x q h s = (
    rw
        (
          read_lem r.slots.cells r.front (front_elem x q h),
          store_lem r.slots r.front nullptr (omega (arith, h.size, h.front_lt)),
        )
        refl,
    record {
      size = omega (arith, length-set r.slots.cells r.front nullptr, h.size);
      front_lt = kept.front_lt;
      fits = kept.fits;
      rear_eq = kept.rear_eq;
      at = λ k y p.
          get_elem?-set_ne r.slots.cells r.front (offset n (step r.front) k) nullptr
            (elsewhere k y p)
          ∙ kept.at k y p;
    },
  )
    where
      kept : Holds n (record r { front = step r.front }) q
      kept = (read_slot-Holds step x q h s).1

      elsewhere : (k : ℕ) (y : A) → get_elem? q k ≡ some y → r.front ≢ offset n (step r.front) k
      elsewhere k y p c =
          let inside : k < length q = get_elem?-lt q k p in
          ground (
            arith,
            s,
            h.fits,
            offset-offset_one n r.front k h.front_lt,
            offset-ne n r.front 0 (k + 1) h.front_lt,
            offset_zero n r.front h.front_lt,
          )

-- A fresh ring of `n` empty slots holds nothing.
pub Holds-nil {ℓ} :
    {A : Type ℓ} (n base : ℕ) (a : A)
    → 0 < n
    → Holds n (record { slots = allocate base n a; front = 0; rear = 0 }) []
Holds-nil n base a h = record {
  size = length-replicate n a;
  front_lt = h;
  fits = omega arith;
  rear_eq = ground arith;
  at = λ k x p. absurd (ground arith);
}

-- A write at `rear` into a ring that is not full touches none of its elements.
pub set_rear-Holds {ℓ} :
    {A : Type ℓ} {n : ℕ} {r : Ring A} (q : List A) (v : A)
    → Holds n r q
    → length q < n
    → Holds n (record r { slots = put_cells r.slots (set r.slots.cells r.rear v) }) q
set_rear-Holds {n} {r} q v h room = record {
  size = length-set r.slots.cells r.rear v ∙ h.size;
  front_lt = h.front_lt;
  fits = h.fits;
  rear_eq = h.rear_eq;
  at = λ k x p.
      get_elem?-set_ne r.slots.cells r.rear (offset n r.front k) v (λ c.
        offset-ne n r.front k (length q) h.front_lt (get_elem?-lt q k p) room (sym c ∙ h.rear_eq))
      ∙ h.at k x p;
}
