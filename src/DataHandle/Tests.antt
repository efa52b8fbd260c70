-- ===== src/DataHandle/Tests.antt =====
-- `datahandle` of src/handle_data.hpp on concrete inputs.
use rfdts.Base.{◌≡◌, true, [], ◌∷◌, ok, exited, terminate, ◌>>=◌, arith, ltb, if◌then◌else◌, null}
use rfdts.DataHandle.{DataHandle, construct, destroy, move}
use rfdts.DataHandle.Threads.{construct-destroy, construct_wraps, move_forgets}

construct-destroy_example : (construct 5 64 2 >>= destroy) ≡ (
    if ltb 1 2
    then exited terminate
    else ok (record { th_num = 2; threads = record { base = 64; cells = [] } }))
construct-destroy_example = construct-destroy 2 64 2 (omega arith) (omega arith)

construct_wraps_example : construct 65_538 64 70_000 ≡ exited terminate
construct_wraps_example = construct_wraps 1 64 70_000 (omega arith)

abbrev one_worker : DataHandle
one_worker = record { th_num = 1; threads = record { base = 64; cells = true ∷ [] } }

move_forgets_example :
    ((move one_worker).0.threads ≡ null)
    × (destroy (move one_worker).0 ≡ ok (move one_worker).0)
    × ((move one_worker).1 ≡ one_worker)
move_forgets_example = move_forgets one_worker
