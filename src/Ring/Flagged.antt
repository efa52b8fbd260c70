-- ===== src/Ring/Flagged.antt =====
-- The flags of a ring with several writers or readers: a slot's flag is set exactly while the
-- slot holds an element.
use rfdts.Base.{
  ℕ, suc, ◌+◌, ◌≤◌, ◌<◌, ◌≡◌, ◌≢◌, refl, sym, ap, ◌∙◌, Bool, true, false, some, ok, blocked, arith,
  ltb, length, get_elem?, set, length-set, read_lem, store_lem, get_elem?-lt, get_elem?-set_self,
  get_elem?-set_ne, Array, put_cells, allocate, length-replicate, get_elem?-replicate,
}
use rfdts.Ring.{claim_flag}
use native.Mathlib.Decide.{dec_lt, ℕ_discrete}
use rfdts.Ring.Position.{offset, offset-lt, offset-ne, offset-offset_one, offset_zero, offset_turn}

pub record Flagged (n front len : ℕ) (flags : Array Bool) : Type 0 where
  pub size : length flags.cells ≡ n
  pub front_lt : front < n
  pub fits : len ≤ n
  pub at : (k : ℕ) → k < n → get_elem? flags.cells (offset n front k) ≡ some (ltb k len)

pub Flagged-nil : (n base : ℕ) → 0 < n → Flagged n 0 0 (allocate base n false)
Flagged-nil n base h = record {
  size = length-replicate n false;
  front_lt = h;
  fits = omega arith;
  at = λ k p.
      get_elem?-replicate n (offset n 0 k) false (offset-lt n 0 k h (omega arith))
      ∙ ap some (ground arith);
}

module _ {n front len : ℕ} {flags : Array Bool} (f : Flagged n front len flags) where
  -- The flag at the rear is clear while the ring is not full, so a compare-exchange succeeds.
  pub rear_flag : len < n → get_elem? flags.cells (offset n front len) ≡ some false
  rear_flag h = f.at len h ∙ ap some (ground arith)

  pub rear_flag_full : len ≡ n → get_elem? flags.cells (offset n front len) ≡ some true
  rear_flag_full h =
      ground (
        arith,
        f.front_lt,
        f.at 0,
        h,
        offset_zero n front f.front_lt,
        offset_turn n front f.front_lt,
      )

  pub front_flag : 0 < len → get_elem? flags.cells front ≡ some true
  front_flag h = ground (arith, f.front_lt, f.fits, f.at 0, offset_zero n front f.front_lt)

  pub Flagged-put :
      len < n
      → Flagged n front (len + 1) (put_cells flags (set flags.cells (offset n front len) true))
  Flagged-put h = record {
    size = omega (arith, length-set flags.cells (offset n front len) true, f.size);
    front_lt = f.front_lt;
    fits = omega arith;
    at = λ k p. elim (ℕ_discrete k len) [
      | yes e ↦ rw e (
          get_elem?-set_self flags.cells (offset n front len) true
            (omega (arith, f.size, offset-lt n front len f.front_lt f.fits))
          ∙ ap some (ground arith))
      | no d ↦
          get_elem?-set_ne flags.cells (offset n front len) (offset n front k) true (distinct k p d)
          ∙ f.at k p
          ∙ ap some (ground arith)
    ];
  }
    where
      distinct : (k : ℕ) → k < n → k ≢ len → offset n front len ≢ offset n front k
      distinct k p d c = elim (dec_lt k len) [
        | yes l ↦ offset-ne n front k len f.front_lt l h (sym c)
        | no g ↦ offset-ne n front len k f.front_lt (omega arith) p c
      ]

module _ {n front len : ℕ} {flags : Array Bool} (f : Flagged n front (suc len) flags) where
  pub Flagged-take :
      Flagged n (offset n front 1) len (put_cells flags (set flags.cells front false))
  Flagged-take = record {
    size = omega (arith, length-set flags.cells front false, f.size);
    front_lt = offset-lt n front 1 f.front_lt (omega (arith, f.fits));
    fits = omega (arith, f.fits);
    at = λ k p. rw (offset-offset_one n front k f.front_lt p) (moved k p);
  }
    where
      moved :
          (k : ℕ)
          → k < n
          → get_elem? (set flags.cells front false) (offset n front (k + 1)) ≡ some (ltb k len)
      moved k p = elim (ℕ_discrete (k + 1) n) [
        | yes e ↦
            rw (e, offset_turn n front f.front_lt)
              (get_elem?-set_self flags.cells front false (omega (arith, f.size, f.front_lt))
                ∙ ap some (ground (arith, f.fits)))
        | no d ↦
            get_elem?-set_ne flags.cells front (offset n front (k + 1)) false (λ c.
              offset-ne n front 0 (k + 1) f.front_lt (omega arith) (omega arith)
                (offset_zero n front f.front_lt ∙ c))
            ∙ f.at (k + 1) (omega arith)
            ∙ ap some (ground arith)
      ]

pub Flagged-clear_rear :
    {n front len : ℕ} {flags : Array Bool}
    → Flagged n front len flags
    → len < n
    → Flagged n front len (put_cells flags (set flags.cells (offset n front len) false))
Flagged-clear_rear {n} {front} {len} {flags} f h = record {
  size = omega (arith, length-set flags.cells (offset n front len) false, f.size);
  front_lt = f.front_lt;
  fits = f.fits;
  at = λ k p. elim (ℕ_discrete (offset n front len) (offset n front k)) [
    | yes e ↦ rw (← e) (
        get_elem?-set_self flags.cells (offset n front len) false
          (omega (arith, f.size, offset-lt n front len f.front_lt f.fits))
        ∙ sym (rear_flag f h)
        ∙ ap (get_elem? flags.cells) e
        ∙ f.at k p)
    | no d ↦ get_elem?-set_ne flags.cells (offset n front len) (offset n front k) false d ∙ f.at k p
  ];
}

pub claim_clear :
    (flags : Array Bool) (i : ℕ)
    → get_elem? flags.cells i ≡ some false
    → claim_flag flags i ≡ ok (put_cells flags (set flags.cells i true))
unfolding claim_flag
claim_clear flags i e =
    rw (read_lem flags.cells i e) (store_lem flags i true (get_elem?-lt flags.cells i e))

pub claim_set :
    (flags : Array Bool) (i : ℕ)
    → get_elem? flags.cells i ≡ some true
    → claim_flag flags i ≡ blocked
unfolding claim_flag
claim_set flags i e = rw (read_lem flags.cells i e) refl
