-- ===== src/DataHandle/Worker.antt =====
-- The threads of `datahandle` in src/handle_data.hpp: the loop of `__worker`, for one thread. What
-- it prints is kept as the addresses of the records that it reads.
pub mod Handling
mod Tests
use rfdts.Base.{
  ℕ, zero, suc, ◌+◌, ◌*◌, ◌/◌, Bool, List, [], ◌∷◌, ◌++◌, Option, none, some, Outcome, ok, blocked,
  fault, ◌>>=◌, ◌==◌, if◌then◌else◌, load,
}
use rfdts.Sem.Api.{SemApi}
use rfdts.Buffers.{Buffers, Sge}
use rfdts.Queue
use rfdts.Queue.{Queue, Build}
use rfdts.WrPool
use rfdts.WrPool.{WrPool}

pub record Work (S : Type 0) : Type 0 where
  pub nohandle : Queue S ℕ
  pub pool : WrPool
  pub printed : List ℕ

-- `*recv_wr->sg_list`
abbrev pub entry_at : Buffers → Option ℕ → Outcome Sge
entry_at b none = fault
entry_at b (some j) = load b.sg_lists j

abbrev pub entry_of : Buffers → Option ℕ → Outcome Sge
entry_of b none = fault
entry_of b (some x) = load b.wrs x >>= λ w. entry_at b w.sg_list

-- `&temp[i]` for `rounds` records from the `i`-th on, `size` bytes each.
abbrev pub records_from : ℕ → ℕ → ℕ → ℕ → List ℕ
records_from size addr zero i = []
records_from size addr (suc rounds) i = (addr + i * size) ∷ records_from size addr rounds (i + 1)

-- `size` is that of the structure `data`.
module _ (api : SemApi) (build : Build) (size : ℕ) where
  open api use {S}

  unfoldable pub handle_one : Work S → Outcome (Work S)
  handle_one s = do
    (recv_wr, nohandle) ← Queue.get api build s.nohandle
    entry ← entry_of s.pool.buffers recv_wr
    pool ← WrPool.put s.pool recv_wr
    ok (record {
      nohandle = nohandle;
      pool = pool;
      printed = s.printed ++ records_from size entry.addr (entry.length / size) 0;
    })

  -- `while (true)`: `start k` is what its `k`-th test loads.
  unfoldable pub worker : ℕ → (ℕ → Bool) → ℕ → Work S → Outcome (Work S)
  worker zero start k s = blocked
  worker (suc fuel) start k s =
      let handled = handle_one s >>= λ s. worker fuel start (k + 1) s in
      let again = worker fuel start (k + 1) s in
      let after_sleep =
        Queue.get_rq_elenum api s.nohandle >>= λ n. if n == 0 then ok s else again in
      let idle =
        Queue.get_rq_elenum api s.nohandle >>= λ n. if n == 0 then after_sleep else again in
      if start k then handled else idle
