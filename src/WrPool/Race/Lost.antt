-- ===== src/WrPool/Race/Lost.antt =====
-- Two threads in `put` of src/wr_pool.hpp that come upon the same slot.
use rfdts.Base.{
  ℕ, ◌^◌, ◌<◌, ◌≡◌, ◌≢◌, refl, sym, ◌∙◌, ap, subst, List, [], ◌∷◌, Bool, true, false, Option, none,
  some, ok, Array, store_lem, read_lem, put_cells, set, length, get_elem?, length-set,
  get_elem?-set_self, get_elem?-set_ne, arith, Below,
}
use rfdts.Ring.{step32, step64}
use rfdts.Ring.Position.{offset, offset-lt, offset-ne, offset_zero, step32_lem, step64_lem}
use rfdts.Buffers.{Buffers}
use rfdts.Buffers.Layout.{Laid}
use rfdts.WrPool.{WrPool, get}
use rfdts.WrPool.Repr.{Repr}
use rfdts.WrPool.Race.Runs.{first_puts, Taken, get-Taken}
use rfdts.WrPool.Race.{
  resting, chose, located, set_flags, set_slots, set_rear, choose, claim, locate, store_slot,
  publish_rear, System, system, takes, second_writes, Reach, start, later,
}

-- How the two threads lose a work request: the one that `get` returns next is the last.
pub record Lost (p : WrPool) (held : List ℕ) (b : ℕ) (left : List ℕ) : Type 0 where
  pub after : WrPool
  pub reached : Reach (system p resting resting held) (system after resting resting left)
  pub emptied : WrPool
  pub next : get after ≡ ok (some b, emptied)
  pub no_more : emptied.rq.front ≡ emptied.rq.rear

-- An empty ring, with its places known.
module _ (buffers : Buffers) (n r : ℕ) (S : Array (Option ℕ)) (F : Array Bool) (a c b : ℕ)
    (rest : List ℕ) where
  abbrev empty_pool : WrPool
  empty_pool = record {
    buffers = buffers;
    rqnum = n;
    rq = record { slots = S; front = r; rear = r };
    rq_flags = F;
  }

  -- Where the second work request goes.
  abbrev r' : ℕ
  r' = step64 n r

  -- Slots and flags after each access that changes them.
  abbrev S1 : List (Option ℕ)
  S1 = set S.cells r (some a)

  abbrev S2 : List (Option ℕ)
  S2 = set S1 r none

  abbrev S3 : List (Option ℕ)
  S3 = set S2 r' (some c)

  abbrev S4 : List (Option ℕ)
  S4 = set S3 r' (some b)

  abbrev F1 : List Bool
  F1 = set F.cells r true

  abbrev F2 : List Bool
  F2 = set F1 r false

  abbrev F3 : List Bool
  F3 = set F2 r true

  abbrev F4 : List Bool
  F4 = set F3 r' true

  -- The first work request is put, taken, and the flag that it has left is claimed.
  abbrev put_pool : WrPool
  put_pool = set_rear (set_slots (set_flags empty_pool (put_cells F F1)) (put_cells S S1)) r'

  abbrev claimed_pool : Buffers → WrPool
  claimed_pool buffers' = record put_pool {
    buffers = buffers';
    rq = record (put_pool.rq) { slots = put_cells S S2; front = step32 n r };
    rq_flags = put_cells F F3;
  }

  abbrev lost_pool : Buffers → WrPool
  lost_pool buffers' =
      set_rear (set_slots (set_flags (claimed_pool buffers') (put_cells F F4)) (put_cells S S4))
        (step64 n r')

  abbrev begin : System
  begin = system empty_pool resting resting (a ∷ c ∷ b ∷ rest)

  module _ (small : n < 2 ^ 32) (r_lt : r < n) (S_size : length S.cells ≡ n)
      (F_size : length F.cells ≡ n) where
    r'_lt : r' < n
    r'_lt = rw (step64_lem n r r_lt small) (offset-lt n r 1 r_lt (omega (arith, r_lt)))

    same_step : step32 n r ≡ r'
    same_step = step32_lem n r r_lt small ∙ sym (step64_lem n r r_lt small)

    length-S1 : length S1 ≡ n
    length-S1 = length-set S.cells r (some a) ∙ S_size

    length-S2 : length S2 ≡ n
    length-S2 = length-set S1 r none ∙ length-S1

    length-S3 : length S3 ≡ n
    length-S3 = length-set S2 r' (some c) ∙ length-S2

    length-F1 : length F1 ≡ n
    length-F1 = length-set F.cells r true ∙ F_size

    length-F2 : length F2 ≡ n
    length-F2 = length-set F1 r false ∙ length-F1

    length-F3 : length F3 ≡ n
    length-F3 = length-set F2 r true ∙ length-F2

    put_pool-Taken : Laid buffers.elenum buffers → a < buffers.elenum → Taken put_pool a
    put_pool-Taken laid a_lt =
        get-Taken put_pool a (get_elem?-set_self S.cells r (some a) (omega (arith, S_size, r_lt)))
          (omega (arith, length-S1, r_lt)) (omega (arith, length-F1, r_lt)) laid a_lt

    lost_pool-Taken :
        (buffers' : Buffers)
        → Laid buffers'.elenum buffers'
        → b < buffers'.elenum
        → Taken (lost_pool buffers') b
    lost_pool-Taken buffers' laid b_lt =
        get-Taken (lost_pool buffers') b
          (rw same_step (get_elem?-set_self S3 r' (some b) (omega (arith, length-S3, r'_lt))))
          (rw same_step (omega (arith, length-set S3 r' (some b), length-S3, r'_lt)))
          (rw same_step (omega (arith, length-set F3 r' true, length-F3, r'_lt))) laid b_lt

    -- The second writer has chosen its flag before, and claims it after.
    reach_claimed :
        (F_r : get_elem? F.cells r ≡ some false) (got : Taken put_pool a)
        → Reach begin (system (claimed_pool got.buffers) resting (located r' b) (a ∷ c ∷ rest))
    reach_claimed F_r got =
        let chosen : Reach begin (system empty_pool resting (chose r b) (a ∷ c ∷ rest)) =
          later start (second_writes (choose (a ∷ c ∷ []) rest b refl)) in
        let put_first : Reach begin (system put_pool resting (chose r b) (c ∷ rest)) =
          first_puts empty_pool (chose r b) [] (c ∷ rest) a (read_lem F.cells r F_r)
            (store_lem F r true (omega (arith, F_size, r_lt)))
            (store_lem S r (some a) (omega (arith, S_size, r_lt))) chosen in
        later
          (later (later put_first (takes got.returns)) (
            second_writes (
              claim (read_lem F2 r (get_elem?-set_self F1 r false (omega (arith, length-F1, r_lt))))
                (store_lem (put_cells F F2) r true (omega (arith, length-F2, r_lt))))))
          (second_writes locate)

    -- Then both writers store into the same slot.
    reach_lost :
        (buffers' : Buffers)
        → get_elem? F3 r' ≡ some false
        → Reach begin (system (claimed_pool buffers') resting (located r' b) (a ∷ c ∷ rest))
        → Reach begin (system (lost_pool buffers') resting resting (a ∷ rest))
    reach_lost buffers' F3_r' reached =
        let put_second =
          first_puts (claimed_pool buffers') (located r' b) (a ∷ []) rest c (read_lem F3 r' F3_r')
            (store_lem (put_cells F F3) r' true (omega (arith, length-F3, r'_lt)))
            (store_lem (put_cells S S2) r' (some c) (omega (arith, length-S2, r'_lt))) reached in
        later
          (later put_second (
            second_writes (
              store_slot
                (store_lem (put_cells S S3) r' (some b) (omega (arith, length-S3, r'_lt))))))
          (second_writes publish_rear)

    put_race :
        r ≢ r'
        → get_elem? F.cells r ≡ some false
        → get_elem? F.cells r' ≡ some false
        → Laid buffers.elenum buffers
        → a < buffers.elenum
        → b < buffers.elenum
        → Lost empty_pool (a ∷ c ∷ b ∷ rest) b (a ∷ rest)
    put_race apart F_r F_r' laid a_lt b_lt =
        let F3_r' : get_elem? F3 r' ≡ some false =
          get_elem?-set_ne F2 r r' true apart
          ∙ get_elem?-set_ne F1 r r' false apart
          ∙ get_elem?-set_ne F.cells r r' true apart
          ∙ F_r' in
        let got = put_pool-Taken laid a_lt in
        let last =
          lost_pool-Taken got.buffers (subst (λ m. Laid m got.buffers) (sym got.elenum_eq) got.laid)
            (omega (arith, got.elenum_eq, b_lt)) in
        record {
          after = lost_pool got.buffers;
          reached = reach_lost got.buffers F3_r' (reach_claimed F_r got);
          emptied = _;
          next = last.returns;
          no_more = rw same_step (step32_lem n r' r'_lt small ∙ sym (step64_lem n r' r'_lt small));
        }

-- Two threads in `put` and one in `get` can lose a work request: from every sound `wr_pool` with
-- none free, of which the users hold `a`, `c` and `b`, some order of their steps ends all calls
-- with `a` held and `c` and `b` put back, after which `get` returns `b` and finds the ring empty.
pub put-Lost :
    (p : WrPool) (a c b : ℕ) (rest : List ℕ)
    → Repr p []
    → Below p.elenum (a ∷ c ∷ b ∷ rest)
    → Lost p (a ∷ c ∷ b ∷ rest) b (a ∷ rest)
put-Lost p a c b rest h below =
    let n = p.rqnum in
    let r = p.rq.rear in
    let front_lt = h.holds.front_lt in
    let front_eq : p.rq.front ≡ r = sym (offset_zero n p.rq.front front_lt) ∙ sym h.holds.rear_eq in
    let r_lt : r < n = omega (arith, front_eq, front_lt) in
    let big : 1 < n = omega (arith, h.rqnum_eq, below.0) in
    let next_eq : step64 n r ≡ offset n r 1 = step64_lem n r r_lt h.small in
    let whole : p ≡ empty_pool p.buffers n r p.rq.slots p.rq_flags a c b rest =
      ap (λ f. record p { rq = record (p.rq) { front = f } }) front_eq in
    let clear : (k : ℕ) → k < n → get_elem? p.rq_flags.cells (offset n r k) ≡ some false = λ k lt.
      subst (λ f. get_elem? p.rq_flags.cells (offset n f k) ≡ some false) front_eq
        (h.flagged.at k lt ∙ ap some (ground arith)) in
    subst (λ z. Lost z (a ∷ c ∷ b ∷ rest) b (a ∷ rest)) (sym whole)
      (put_race p.buffers n r p.rq.slots p.rq_flags a c b rest h.small r_lt h.holds.size
        h.flagged.size
        (λ e. offset-ne n r 0 1 r_lt (omega arith) big (offset_zero n r r_lt ∙ e ∙ next_eq))
        (subst (λ i. get_elem? p.rq_flags.cells i ≡ some false) (offset_zero n r r_lt)
          (clear 0 (omega (arith, r_lt))))
        (rw next_eq (clear 1 big)) h.laid (below.0) (below.1.1.0))
