-- ===== src/DataHandle/Threads.antt =====
-- Which threads of a `datahandle` of src/handle_data.hpp are started and joined.
use rfdts.Base.{◌>>=◌}
use rfdts.Base.{
  ℕ, zero, suc, ◌+◌, ◌^◌, ◌≤◌, ◌<◌, ◌≡◌, refl, ◌≢◌, ◌∙◌, sym, ap, subst, Bool, true, false, List,
  [], ◌∷◌, some, ok, exited, terminate, arith, ltb, ne→==, if◌then◌else◌, Array, null, allocate,
  length, get_elem?, length-set, length-replicate, get_elem?-replicate, get_elem?-set_self,
  get_elem?-set_ne, read_lem, store_lem, put_cells, set,
}
use native.Mathlib.Decide.{ℕ_discrete}
use rfdts.Base.Words.{u16}
use rfdts.DataHandle.{
  DataHandle, start_worker, start_from, construct, join_worker, join_from, any_joinable, destroy,
  move,
}

-- Of the `n` threads the first `i` are running.
pub record Running (base n i : ℕ) (threads : Array Bool) : Type 0 where
  pub place : threads.base ≡ base
  pub size : length threads.cells ≡ n
  pub on : (k : ℕ) → k < i → get_elem? threads.cells k ≡ some true
  pub off : (k : ℕ) → i ≤ k → k < n → get_elem? threads.cells k ≡ some false

none-Running : (n base : ℕ) → Running base n 0 (allocate base n false)
none-Running n base = record {
  place = refl;
  size = length-replicate n false;
  on = λ k l. elim l [ ];
  off = λ k l h. get_elem?-replicate n k false h;
}

start_worker-Running :
    (base n i : ℕ) (threads : Array Bool)
    → i < n
    → Running base n i threads
    → let after = put_cells threads (set threads.cells i true) in
      (start_worker threads i ≡ ok after) × Running base n (i + 1) after
unfolding start_worker
start_worker-Running base n i threads h r = (
  rw
      (
        read_lem threads.cells i (r.off i (omega arith) h),
        store_lem threads i true (omega (arith, r.size)),
      )
      refl,
  record {
    place = r.place;
    size = length-set threads.cells i true ∙ r.size;
    on = λ k l. elim (ℕ_discrete k i) [
      | yes e ↦ rw e (get_elem?-set_self threads.cells i true (omega (arith, r.size)))
      | no d ↦ get_elem?-set_ne threads.cells i k true (λ e. d (sym e)) ∙ r.on k (omega arith)
    ];
    off = λ k l w.
        get_elem?-set_ne threads.cells i k true (λ e. omega arith) ∙ r.off k (omega arith) w;
  },
)

-- As long as the index does not wrap around, each round starts one more.
start_from-Running :
    (base rounds fuel n i : ℕ) (threads : Array Bool)
    → i + rounds ≤ n
    → i + rounds < 2 ^ 16
    → Running base n i threads
    → (after : Array Bool) × (start_from (rounds + fuel) n i threads
        ≡ start_from fuel n (i + rounds) after)
      × Running base n (i + rounds) after
unfolding start_from
start_from-Running base zero fuel n i threads h w r = (
  threads,
  ap (λ m. start_from m n i threads) (omega arith)
      ∙ ap (λ j. start_from fuel n j threads) (omega arith),
  subst (λ j. Running base n j threads) (omega arith) r,
)
start_from-Running base (suc rounds) fuel n i threads h w r =
    let (started, r') = start_worker-Running base n i threads (omega arith) r in
    let (after, rest, r'') =
      start_from-Running base rounds fuel n (i + 1) _ (omega arith) (omega arith) r' in
    let inside : ltb i n ≡ true = ground arith in
    let next : u16 (i + 1) ≡ i + 1 = omega arith in
    let unrolled : start_from (suc (rounds + fuel)) n i threads
        ≡ start_from (rounds + fuel) n (i + 1) (put_cells threads (set threads.cells i true)) =
      rw (inside, started, next) refl in
    (
      after,
      ap (λ m. start_from m n i threads) {y = suc (rounds + fuel)} (omega arith)
          ∙ unrolled
          ∙ rest
          ∙ ap (λ j. start_from fuel n j after) (omega arith),
      subst (λ j. Running base n j after) (omega arith) r'',
    )

-- With fewer than 2 ^ 16 threads, and fuel for one test more than there are threads, the
-- constructor returns and all of them run.
pub construct-Running :
    (more base n : ℕ)
    → n < 2 ^ 16
    → (p : DataHandle) × (construct (n + suc more) base n ≡ ok p)
      × (p.th_num ≡ n)
      × Running base n n p.threads
unfolding construct start_from
construct-Running more base n h =
    let (after, ran, r) =
      start_from-Running base n (suc more) n 0 (allocate base n false) (omega arith) (omega arith)
        (none-Running n base) in
    let done : start_from (suc more) n (0 + n) after ≡ ok after = ground arith in
    (
      record { th_num = n; threads = after },
      rw (ran, done) refl,
      refl,
      subst (λ j. Running base n j after) (omega arith) r,
    )

again :
    (base n : ℕ) (threads : Array Bool)
    → Running base n (65_535 + 1) threads
    → start_worker threads 0 ≡ exited terminate
unfolding start_worker
again base n threads r = rw (read_lem threads.cells 0 (r.on 0 (omega arith))) refl

wrapped :
    (more base n : ℕ) (threads : Array Bool)
    → 2 ^ 16 ≤ n
    → Running base n (0 + 65_535) threads
    → start_from (suc (suc more)) n (0 + 65_535) threads ≡ exited terminate
unfolding start_from
wrapped more base n threads h r =
    let (started, r') = start_worker-Running base n 65_535 threads (omega arith) r in
    let first : start_worker (put_cells threads (set threads.cells 65_535 true)) 0
        ≡ exited terminate =
      again base n _ r' in
    let inside : ltb 65_535 n ≡ true = ground arith in
    let inside' : ltb 0 n ≡ true = ground arith in rw (inside, inside', started, first) refl

-- With 2 ^ 16 threads or more the constructor of `datahandle`, given fuel for 2 ^ 16 + 1 tests or
-- more, ends the program.
pub construct_wraps :
    (more base n : ℕ) → 2 ^ 16 ≤ n → construct (65_535 + suc (suc more)) base n ≡ exited terminate
unfolding construct
construct_wraps more base n h =
    let (after, ran, r) =
      start_from-Running base 65_535 (suc (suc more)) n 0 (allocate base n false) (omega arith)
        (omega arith) (none-Running n base) in
    rw (ran, wrapped more base n after h r) refl

any_joinable-true : (xs : List Bool) (i : ℕ) → get_elem? xs i ≡ some true → any_joinable xs ≡ true
any_joinable-true [] i e = absurd (ground arith)
any_joinable-true (x ∷ xs) zero e = ground arith
any_joinable-true (true ∷ xs) (suc i) e = refl
any_joinable-true (false ∷ xs) (suc i) e = any_joinable-true xs i e

any_joinable-false :
    (xs : List Bool)
    → ((k : ℕ) → k < length xs → get_elem? xs k ≡ some false)
    → any_joinable xs ≡ false
any_joinable-false [] h = refl
any_joinable-false (x ∷ xs) h =
    let x_eq = h 0 (omega arith) in
    let rest = any_joinable-false xs (λ k l. h (suc k) (omega arith)) in ground arith

-- Once the first thread is joined, the loop joins no other.
join_from-joined :
    (rounds i : ℕ) (threads : Array Bool)
    → get_elem? threads.cells 0 ≡ some false
    → join_from rounds i threads ≡ ok threads
unfolding join_from join_worker
join_from-joined zero i threads e = refl
join_from-joined (suc rounds) i threads e =
    rw (read_lem threads.cells 0 e) (join_from-joined rounds (i + 1) threads e)

join_from-Running :
    (base m : ℕ) (threads : Array Bool)
    → Running base (suc m) (suc m) threads
    → join_from (suc m) 0 threads ≡ ok (put_cells threads (set threads.cells 0 false))
unfolding join_from join_worker
join_from-Running base m threads r =
    let first = read_lem threads.cells 0 (r.on 0 (omega arith)) in
    let stored = store_lem threads 0 false (omega (arith, r.size)) in
    let rest =
      join_from-joined m (0 + 1) (put_cells threads (set threads.cells 0 false))
        (get_elem?-set_self threads.cells 0 false (omega (arith, r.size))) in
    rw (first, stored, rest) refl

-- When every thread that was to be started runs, the destructor ends the program, unless there is
-- at most one.
pub destroy-Running :
    (base n : ℕ) (p : DataHandle)
    → base ≢ 0
    → p.th_num ≡ n
    → Running base n n p.threads
    → destroy p
      ≡ (if ltb 1 n then exited terminate else ok (record p { threads = put_cells p.threads [] }))
unfolding destroy join_from
destroy-Running base zero p real size r =
    let live = ne→== p.threads.base 0 (rw (r.place) real) in
    rw
      (
        live,
        size,
        any_joinable-false p.threads.cells (λ k l. r.off k (omega arith) (omega (arith, r.size))),
      )
      refl
destroy-Running base (suc zero) p real size r =
    let live = ne→== p.threads.base 0 (rw (r.place) real) in
    let none_left = any_joinable-false (set p.threads.cells 0 false) (λ k l.
      ap (get_elem? (set p.threads.cells 0 false))
        (omega (arith, length-set p.threads.cells 0 false, r.size))
      ∙ get_elem?-set_self p.threads.cells 0 false (omega (arith, r.size))) in
    rw (live, size, join_from-Running base 0 p.threads r, none_left) refl
destroy-Running base (suc (suc m)) p real size r =
    let live = ne→== p.threads.base 0 (rw (r.place) real) in
    let left : get_elem? (set p.threads.cells 0 false) 1 ≡ some true =
      get_elem?-set_ne p.threads.cells 0 1 false (λ e. omega arith) ∙ r.on 1 (omega arith) in
    let more : ltb 1 (suc (suc m)) ≡ true = ground arith in
    rw
      (
        live,
        size,
        join_from-Running base (suc m) p.threads r,
        any_joinable-true (set p.threads.cells 0 false) 1 left,
        more,
      )
      refl

-- A `datahandle` with fewer than 2 ^ 16 threads, constructed at a real address with fuel for one
-- test more than there are threads, and then destroyed: with two threads or more the program
-- ends, with at most one the object is destroyed.
pub construct-destroy :
    (more base n : ℕ)
    → base ≢ 0
    → n < 2 ^ 16
    → (construct (n + suc more) base n >>= destroy) ≡ (
        if ltb 1 n
        then exited terminate
        else ok (record { th_num = n; threads = record { base = base; cells = [] } }))
construct-destroy more base n real h =
    let (p, made, size, r) = construct-Running more base n h in
    let destroyed = destroy-Running base n p real size r in rw (made, destroyed, size, r.place) refl

-- The new object of a move of a `datahandle` has no threads, and its destructor does nothing; the
-- old one keeps them all.
pub move_forgets :
    (p : DataHandle)
    → ((move p).0.threads ≡ null) × (destroy (move p).0 ≡ ok (move p).0) × ((move p).1 ≡ p)
unfolding move destroy
move_forgets p = (refl, refl, refl)
