-- ===== src/WrPool/Life.antt =====
-- Moving and destroying a pool of src/wr_pool.hpp, and its users.
use rfdts.Base.{
  ℕ, ◌^◌, ◌≤◌, ◌<◌, ◌≡◌, refl, ◌≢◌, ◌∙◌, sym, ap, List, [], ◌∷◌, ◌++◌, Option, some, ok, blocked,
  fault, arith, length, ◌==◌, if◌then◌else◌, ne→==, length-pointers, read_fault,
}
use rfdts.Ring.{take_slot, claim_flag}
use rfdts.Ring.Position.{offset}
use rfdts.WrPool.{WrPool, get, put, move, free_num, destroy}
use rfdts.WrPool.Repr.{Repr, Put, get_next, get_empty, put_back}
use rfdts.Pool.{PoolLaws}

-- The destructor's count is the number of free work requests, below 2 ^ 31 of them.
pub free_num-eq-length :
    (p : WrPool) (q : List ℕ)
    → Repr p q
    → length q ≤ p.elenum
    → p.elenum < 2 ^ 31
    → free_num p ≡ length q
unfolding free_num
free_num-eq-length p q r h small =
    let rear_eq : p.rq.rear ≡ offset p.rqnum p.rq.front (length q) =
      r.holds.rear_eq ∙ ap (offset p.rqnum p.rq.front) (length-pointers q) in
    ground (arith, rear_eq, r.holds.front_lt, r.rqnum_eq)

-- The destructor of a sound live `wr_pool` of fewer than 2 ^ 31 elements frees the blocks if
-- every work request is free, and otherwise waits.
pub destroy_returned :
    (p : WrPool) (q : List ℕ)
    → Repr p q
    → length q ≤ p.elenum
    → p.elenum < 2 ^ 31
    → p.addr ≢ 0
    → destroy p ≡ (if length q == p.elenum then ok (move p).1 else blocked)
unfolding destroy move
destroy_returned p q r h small live =
    rw (ne→== p.addr 0 live, free_num-eq-length p q r h small) refl

-- The move constructor of `wr_pool` yields the pool as it was; of the old one the destructor does
-- nothing, and `get` and `put` fault.
pub move_released :
    (p : WrPool) (e : Option ℕ)
    → ((move p).0 ≡ p)
      × (destroy (move p).1 ≡ ok (move p).1)
      × (get (move p).1 ≡ fault)
      × (put (move p).1 e ≡ fault)
unfolding move destroy get take_slot put claim_flag
move_released p e =
    (refl, refl, rw (read_fault [] p.rq.front refl) refl, rw (read_fault [] p.rq.rear refl) refl)

-- A sound pool of `size` work requests.
pub record Sound (size : ℕ) (p : WrPool) (q : List ℕ) : Type 0 where
  pub repr : Repr p q
  pub size_eq : p.elenum ≡ size

pub get_cons :
    (size : ℕ) (p : WrPool) (x : ℕ) (q : List ℕ)
    → Sound size p (x ∷ q)
    → (p' : WrPool) × (get p ≡ ok (some x, p')) × Sound size p' q
get_cons size p x q s =
    let record { after = p'; returns = e; sound = r; same = shape } = get_next p x q s.repr in
    (p', e, record { repr = r; size_eq = shape.elenum_eq ∙ s.size_eq })

pub get_nil : (size : ℕ) (p : WrPool) → Sound size p [] → (r : Option ℕ × WrPool) → get p ≢ ok r
get_nil size p s r e = cc (get_empty p s.repr)

pub put_room :
    (size : ℕ) (p : WrPool) (q : List ℕ) (e : ℕ)
    → Sound size p q
    → e < size
    → length q < size
    → (p' : WrPool) × (put p (some e) ≡ ok p') × Sound size p' (q ++ e ∷ [])
put_room size p q e s below room =
    let a : Put p q e =
      put_back p q e s.repr (omega (arith, s.size_eq))
        (omega (arith, s.size_eq, s.repr.rqnum_eq)) in
    (
      a.after,
      a.returns,
      record { repr = a.sound; size_eq = ap (λ b. b.elenum) (sym a.same) ∙ s.size_eq },
    )

abbrev pub wr_pool_laws : ℕ → PoolLaws
wr_pool_laws size = record {
  P = WrPool;
  size = size;
  Way = Unit {0};
  get = λ w. get;
  put = put;
  Repr = Sound size;
  get_cons = λ w. get_cons size;
  get_nil = λ w. get_nil size;
  put_room = put_room size;
}
