-- ===== src/DataHandle.antt =====
-- `datahandle` of src/handle_data.hpp: the threads that it starts and joins. Of a `std::thread` the
-- model keeps whether it is joinable, and it ends when it is waited for; Worker has what it does.
pub mod Threads
pub mod Worker
mod Tests
use rfdts.Base.{
  ℕ, zero, suc, ◌+◌, Bool, true, false, List, [], ◌∷◌, ◌||◌, Outcome, ok, blocked, exited,
  terminate, ◌>>=◌, ltb, ◌==◌, if◌then◌else◌, put_cells, Array, null, allocate, load, store,
}
use rfdts.Base.Words.{u16}

pub record DataHandle : Type 0 where
  pub th_num : ℕ
  pub threads : Array Bool

-- `__threads[i] = std::thread(...)`: an assignment to a joinable thread ends the program.
unfoldable pub start_worker : Array Bool → ℕ → Outcome (Array Bool)
start_worker threads i = do
  joinable ← load threads i
  if joinable then exited terminate else store threads i true

-- The constructor's loop at the index `i`, an uint16_t; `fuel` bounds the number of its tests.
unfoldable pub start_from : ℕ → ℕ → ℕ → Array Bool → Outcome (Array Bool)
start_from zero th_num i threads = blocked
start_from (suc fuel) th_num i threads =
    let rest = start_worker threads i >>= start_from fuel th_num (u16 (i + 1)) in
    if ltb i th_num then rest else ok threads

-- The number of threads is computed in floating point, and is an argument here.
unfoldable pub construct : ℕ → ℕ → ℕ → Outcome DataHandle
construct fuel base th_num = do
  threads ← start_from fuel th_num 0 (allocate base th_num false)
  ok (record { th_num = th_num; threads = threads })

-- The body of the destructor's loop: it tests the first thread and joins the thread `i`. To join
-- a thread that is not joinable throws, which ends the program.
unfoldable pub join_worker : Array Bool → ℕ → Outcome (Array Bool)
join_worker threads i = do
  first ← load threads 0
  if first
      then (load threads i >>= λ joinable.
          if joinable then store threads i false else exited terminate)
      else ok threads

unfoldable pub join_from : ℕ → ℕ → Array Bool → Outcome (Array Bool)
join_from zero i threads = ok threads
join_from (suc rounds) i threads = do
  threads ← join_worker threads i
  join_from rounds (i + 1) threads

abbrev pub any_joinable : List Bool → Bool
any_joinable [] = false
any_joinable (t ∷ threads) = t || any_joinable threads

-- `delete [] __threads` ends the program when it destroys a joinable thread. The pointer keeps its
-- value, and there is no thread behind it any more.
unfoldable pub destroy : DataHandle → Outcome DataHandle
destroy p = if p.threads.base == 0 then ok p else do
  threads ← join_from p.th_num 0 p.threads
  if any_joinable threads.cells
      then exited terminate
      else ok (record p { threads = put_cells threads [] })

-- The move constructor: it copies every member and then forgets the threads of the new object.
unfoldable pub move : DataHandle → DataHandle × DataHandle
move ref = (record ref { threads = null }, ref)
