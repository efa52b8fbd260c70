-- ===== src/DataHandle/Worker/Handling.antt =====
-- What a thread of `datahandle` in src/handle_data.hpp handles.
use rfdts.Base.{
  ℕ, zero, suc, ◌+◌, ◌/◌, ◌≤◌, ◌<◌, ◌≡◌, refl, sym, ◌∙◌, ap, subst, List, [], ◌∷◌, ◌++◌, Bool, true,
  false, some, Outcome, ok, blocked, ne→==, length, length-append, arith, get_elem?-some, read_lem,
  Below,
}
use mathlib.Core.List.{append_assoc, append-nil}
use rfdts.Base.Words.{u32}
use rfdts.Sem.Api.{SemApi}
use rfdts.Buffers.{Buffers, element_addr}
use rfdts.Buffers.Layout.{Laid}
use rfdts.Queue.{Build}
use rfdts.Queue.Repr as QueueRepr
use rfdts.Queue.Life.{elenum-length}
use rfdts.WrPool.Repr as PoolRepr
use rfdts.DataHandle.Worker.{Work, entry_of, records_from, handle_one, worker}

-- The entry of a work request lies where its element does.
entry_of_lem :
    (b : Buffers) (x : ℕ)
    → Laid b.elenum b
    → x < b.elenum
    → entry_of b (some x) ≡ ok (record { addr = element_addr b x; length = u32 b.elesize })
entry_of_lem b x laid h =
    let (w, there) = get_elem?-some b.wrs.cells x (omega (arith, h, laid.wrs_size)) in
    rw (read_lem b.wrs.cells x there, (laid.wr x w h there).entry)
      (read_lem b.sg_lists.cells x (laid.sge x h))

-- The records of the elements of some work requests, in order.
abbrev pub records_of : ℕ → Buffers → List ℕ → List ℕ
records_of size b [] = []
records_of size b (x ∷ xs) =
    records_from size (element_addr b x) (u32 b.elesize / size) 0 ++ records_of size b xs

module _ (api : SemApi) (build : Build) (size : ℕ) where
  open api use {S}

  -- `xs` waits to be handled, `free` is in the pool, and it has room for all.
  pub record Holding (s : Work S) (xs free : List ℕ) : Type 0 where
    pub nohandle : QueueRepr.Repr api build s.nohandle xs
    pub pool : PoolRepr.Repr s.pool free
    pub ids : Below s.pool.elenum xs
    pub room : length free + length xs ≤ s.pool.elenum

  pub record Handled (b : Buffers) (o : Outcome (Work S)) (xs free printed : List ℕ) : Type 0 where
    pub after : Work S
    pub returns : o ≡ ok after
    pub holding : Holding after xs free
    pub same : after.pool.buffers ≡ b
    pub printed_eq : after.printed ≡ printed

  handle_one-Handled :
      (s : Work S) (x : ℕ) (xs free : List ℕ)
      → Holding s (x ∷ xs) free
      → Handled s.pool.buffers (handle_one api build size s) xs (free ++ x ∷ []) (
          s.printed
          ++ records_from size (element_addr s.pool.buffers x) (u32 s.pool.elesize / size) 0)
  unfolding handle_one
  handle_one-Handled s x xs free h =
      let got = QueueRepr.get_first api build s.nohandle x xs h.nohandle in
      let entry = entry_of_lem s.pool.buffers x h.pool.laid (h.ids.0) in
      let put =
        PoolRepr.put_back s.pool free x h.pool (h.ids.0) (omega (arith, h.room, h.pool.rqnum_eq)) in
      let more : length (free ++ x ∷ []) ≡ length free + 1 = length-append free (x ∷ []) in
      record {
        after = record {
          nohandle = got.after;
          pool = put.after;
          printed =
              s.printed
              ++ records_from size (element_addr s.pool.buffers x) (u32 s.pool.elesize / size) 0;
        };
        returns = rw (got.returns, entry, put.returns) refl;
        holding = record {
          nohandle = got.sound;
          pool = put.sound;
          ids = subst (λ b. Below b.elenum xs) put.same (h.ids.1);
          room = omega (arith, more, h.room, ap (λ b. b.elenum) put.same);
        };
        same = sym put.same;
        printed_eq = refl;
      }

  worker_ends :
      (fuel : ℕ) (start : ℕ → Bool) (k : ℕ) (s : Work S)
      → QueueRepr.Repr api build s.nohandle []
      → start k ≡ false
      → worker api build size (suc fuel) start k s ≡ ok s
  unfolding worker
  worker_ends fuel start k s h off = rw (off, elenum-length api build s.nohandle [] h) refl

  -- When `start` is cleared once a thread of `datahandle` has handled what waits, and the pool
  -- has room for it, the thread returns within as many rounds as wait and one more, having read
  -- the records of the waiting elements in order and put their work requests back into the pool
  -- in order.
  pub worker-Handled :
      (fuel : ℕ) (start : ℕ → Bool) (k : ℕ) (s : Work S) (xs free : List ℕ)
      → Holding s xs free
      → ((j : ℕ) → j < k + length xs → start j ≡ true)
      → start (k + length xs) ≡ false
      → length xs < fuel
      → Handled s.pool.buffers
          (worker api build size fuel start k s)
          []
          (free ++ xs)
          (s.printed ++ records_of size s.pool.buffers xs)
  unfolding worker
  worker-Handled zero start k s xs free h on off w = absurd (omega (arith, w))
  worker-Handled (suc fuel) start k s [] free h on off w =
      let here : k + length {A = ℕ} [] ≡ k = omega arith in
      record {
        after = s;
        returns = worker_ends fuel start k s h.nohandle (subst (λ j. start j ≡ false) here off);
        holding = rw (append-nil free) h;
        same = refl;
        printed_eq = sym (append-nil s.printed);
      }
  worker-Handled (suc fuel) start k s (x ∷ xs) free h on off w =
      let one = handle_one-Handled s x xs free h in
      let next : k + length (x ∷ xs) ≡ k + 1 + length xs = omega arith in
      let rest =
        worker-Handled fuel start (k + 1) one.after xs (free ++ x ∷ []) one.holding
          (λ j lt. on j (omega (arith, lt))) (rw (← next) off) (omega (arith, w)) in
      record {
        after = rest.after;
        returns = rw (on k (omega arith), one.returns) rest.returns;
        holding = subst (Holding rest.after []) (append_assoc free (x ∷ []) xs) rest.holding;
        same = rest.same ∙ one.same;
        printed_eq =
            rest.printed_eq
            ∙ ap (λ b. one.after.printed ++ records_of size b xs) one.same
            ∙ ap (λ l. l ++ records_of size s.pool.buffers xs) one.printed_eq
            ∙ append_assoc s.printed _ (records_of size s.pool.buffers xs);
      }

  -- Once `start` is cleared while an element waits, a thread of `datahandle` handles nothing more
  -- and never returns, however many rounds it makes.
  pub worker_spins :
      (fuel : ℕ) (start : ℕ → Bool) (k : ℕ) (s : Work S) (x : ℕ) (xs : List ℕ)
      → QueueRepr.Repr api build s.nohandle (x ∷ xs)
      → ((j : ℕ) → k ≤ j → start j ≡ false)
      → worker api build size fuel start k s ≡ blocked
  unfolding worker
  worker_spins zero start k s x xs h off = refl
  worker_spins (suc fuel) start k s x xs h off =
      let rest = worker_spins fuel start (k + 1) s x xs h (λ j le. off j (omega (arith, le))) in
      rw
        (
          off k (omega arith),
          elenum-length api build s.nohandle (x ∷ xs) h,
          ne→== (length (x ∷ xs)) 0 (omega arith),
        )
        rest
