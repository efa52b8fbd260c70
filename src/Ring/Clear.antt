-- ===== src/Ring/Clear.antt =====
-- The slots of a ring that hold no element are null: kept where every taken slot is cleared.
use rfdts.Base.{
  ℕ, suc, ◌+◌, ◌≤◌, ◌<◌, ◌≡◌, ◌∙◌, sym, some, arith, length, get_elem?, set, length-set,
  get_elem?-set_self, get_elem?-set_ne, put_cells, allocate, get_elem?-replicate,
}
use native.Mathlib.Decide.{ℕ_discrete}
use rfdts.Ring.{Ring}
use rfdts.Ring.Position.{offset, offset-lt, offset-ne, offset-offset_one, offset_zero, offset_turn}

-- From the `len`th place on, every slot holds `nullptr`.
pub record Clear {ℓ} {A : Type ℓ} (nullptr : A) (n len : ℕ) (r : Ring A) : Type ℓ where
  pub size : length r.slots.cells ≡ n
  pub front_lt : r.front < n
  pub empty :
      (k : ℕ) → len ≤ k → k < n → get_elem? r.slots.cells (offset n r.front k) ≡ some nullptr

pub Clear-nil {ℓ} :
    {A : Type ℓ} (nullptr : A) (n base : ℕ) {r : Ring A}
    → 0 < n
    → r.slots ≡ allocate base n nullptr
    → length r.slots.cells ≡ n
    → r.front ≡ 0
    → Clear nullptr n 0 r
Clear-nil nullptr n base {r} h e s f = record {
  size = s;
  front_lt = omega arith;
  empty = λ k p q. rw e (
      get_elem?-replicate n (offset n r.front k) nullptr
        (offset-lt n r.front k (omega arith) (omega arith)));
}

module _ {ℓ} {A : Type ℓ} (nullptr : A) {n : ℕ} {r : Ring A} where
  pub Clear-put :
      (len rear : ℕ) (e : A)
      → Clear nullptr n len r
      → len < n
      → r.rear ≡ offset n r.front len
      → Clear nullptr n
          (len + 1)
          (record r { slots = put_cells r.slots (set r.slots.cells r.rear e); rear = rear })
  Clear-put len rear e c h w = record {
    size = omega (arith, length-set r.slots.cells r.rear e, c.size);
    front_lt = c.front_lt;
    empty = λ k p q.
        get_elem?-set_ne r.slots.cells r.rear (offset n r.front k) e
          (λ d. offset-ne n r.front len k c.front_lt (omega arith) q (sym w ∙ d))
        ∙ c.empty k (omega arith) q;
  }

  pub Clear-take :
      (len front : ℕ)
      → Clear nullptr n (suc len) r
      → front ≡ offset n r.front 1
      → Clear nullptr n len (record r {
        slots = put_cells r.slots (set r.slots.cells r.front nullptr);
        front = front;
      })
  Clear-take len front c e = record {
    size = omega (arith, length-set r.slots.cells r.front nullptr, c.size);
    front_lt = rw e (offset-lt n r.front 1 c.front_lt (omega (arith, c.front_lt)));
    empty = λ k p q. rw (e, offset-offset_one n r.front k c.front_lt q) (moved k p q);
  }
    where
      moved :
          (k : ℕ)
          → len ≤ k
          → k < n
          → get_elem? (set r.slots.cells r.front nullptr) (offset n r.front (k + 1)) ≡ some nullptr
      moved k p q = elim (ℕ_discrete (k + 1) n) [
        | yes t ↦
            rw (t, offset_turn n r.front c.front_lt)
              (get_elem?-set_self r.slots.cells r.front nullptr (omega (arith, c.size, c.front_lt)))
        | no d ↦
            get_elem?-set_ne r.slots.cells r.front (offset n r.front (k + 1)) nullptr (λ z.
              offset-ne n r.front 0 (k + 1) c.front_lt (omega arith) (omega arith)
                (offset_zero n r.front c.front_lt ∙ z))
            ∙ c.empty (k + 1) (omega arith) (omega arith)
      ]

  pub Clear-set_rear :
      (len : ℕ)
      → Clear nullptr n len r
      → len < n
      → r.rear ≡ offset n r.front len
      → Clear nullptr n len
          (record r { slots = put_cells r.slots (set r.slots.cells r.rear nullptr) })
  Clear-set_rear len c h w = record {
    size = length-set r.slots.cells r.rear nullptr ∙ c.size;
    front_lt = c.front_lt;
    empty = λ k p q. elim (ℕ_discrete r.rear (offset n r.front k)) [
      | yes e ↦ rw (← e) (
          get_elem?-set_self r.slots.cells r.rear nullptr
            (rw w (omega (arith, c.size, offset-lt n r.front len c.front_lt))))
      | no d ↦ get_elem?-set_ne r.slots.cells r.rear (offset n r.front k) nullptr d ∙ c.empty k p q
    ];
  }
