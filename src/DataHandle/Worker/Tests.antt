-- ===== src/DataHandle/Worker/Tests.antt =====
-- A thread of src/handle_data.hpp on a concrete queue and pool.
use rfdts.Base.{ℕ, ◌≡◌, refl, ◌∙◌, [], ◌∷◌, ◌++◌, false, blocked, arith, ltb}
use rfdts.Sem.Counting.{counting}
use rfdts.Queue.{spmc}
use rfdts.Queue.Repr as QueueRepr
use rfdts.Queue.Life as QueueLife
use rfdts.Buffers.Samples.{bases}
use rfdts.WrPool.Construct as PoolConstruct
use rfdts.WrPool.Repr as PoolRepr
use rfdts.DataHandle.Worker.{Work, worker}
use rfdts.DataHandle.Worker.Handling.{Holding, Handled, records_of, worker-Handled, worker_spins}

abbrev fresh : QueueLife.Built counting ℕ spmc 2 4096 8192
fresh = QueueLife.construct_empty counting ℕ spmc 2 4096 8192 (omega arith) (omega arith)

-- The work request 0 has been taken from a pool of two, and waits to be handled.
abbrev two : PoolConstruct.Built 96 2 bases
two = PoolConstruct.construct_free 96 2 bases (omega arith) (omega arith) (omega arith)

abbrev taken : PoolRepr.Got two.pool 0 (1 ∷ [])
taken = PoolRepr.get_next two.pool 0 (1 ∷ []) two.sound

abbrev received : QueueRepr.Put counting spmc fresh.queue [] 0
received =
    QueueRepr.put_last counting spmc fresh.queue [] 0 fresh.sound (omega (arith, fresh.rqnum_eq))
      (omega arith)

abbrev work : Work (counting.S)
work = record { nohandle = received.after; pool = taken.after; printed = [] }

size_taken : taken.after.elenum ≡ 2
size_taken = taken.same.elenum_eq ∙ two.elenum_eq

work-Holding : Holding counting spmc 48 work (0 ∷ []) (1 ∷ [])
work-Holding = record {
  nohandle = received.sound;
  pool = taken.sound;
  ids = (omega (arith, size_taken), tt);
  room = omega (arith, size_taken);
}

worker-Handled_example :
    Handled counting spmc 48 work.pool.buffers
      (worker counting spmc 48 2 (λ k. ltb k 1) 0 work)
      []
      (1 ∷ 0 ∷ [])
      (work.printed ++ records_of 48 work.pool.buffers (0 ∷ []))
worker-Handled_example =
    worker-Handled counting spmc 48 2 (λ k. ltb k 1) 0 work (0 ∷ []) (1 ∷ []) work-Holding
      (λ j h. ground (arith, h)) refl (omega arith)

worker_spins_example : worker counting spmc 48 7 (λ k. false) 0 work ≡ blocked
worker_spins_example =
    worker_spins counting spmc 48 7 (λ k. false) 0 work 0 [] received.sound (λ j h. refl)
