-- ===== src/TransArgs.antt =====
-- The parameters of src/trans_args.hpp, and the sizes that the program computes from them: those of
-- the pools, of the queues of src/queue.hpp, of the threads of src/handle_data.hpp and of the
-- requests that src/commu.cpp posts ahead. The arithmetic of `float` is a parameter.
pub mod Capacity
mod Tests
use rfdts.Base.{ℕ, ◌+◌, ◌^◌, ◌<◌, Outcome, ok, ◌>>=◌}
use rfdts.Sem.Api.{SemApi}
use rfdts.Queue
use rfdts.Queue.{Queue, Build}

-- `ceil32` and `ceil64` round up and convert to an uint32_t and an uint64_t.
pub record FloatApi : Type 1 where
  pub F : Type 0
  pub of_nat : ℕ → F
  pub add : F → F → F
  pub mul : F → F → F
  pub div : F → F → F
  pub ceil32 : F → ℕ
  pub ceil64 : F → ℕ
  pub ceil32_lt : (x : F) → ceil32 x < 2 ^ 32

-- The fields that a size is computed from.
pub record TransArgs (F : Type 0) : Type 0 where
  pub size_per_data : ℕ
  pub afreq : ℕ
  pub tfreq : ℕ
  pub kind_per_sensor : ℕ
  pub sensor_num_per_node : ℕ
  pub node_num : ℕ
  pub ele_size_scale : F
  pub ele_num_scale : F
  pub th_wait_time : F
  pub data_handle_time : F
  pub sys_lat : F
  pub pre_rr_scale : F

-- Where the blocks of a queue are.
pub record QueueBases : Type 0 where
  pub rq_base : ℕ
  pub flags_base : ℕ

pub record Queues (S : Type 0) : Type 0 where
  pub nosend_or_recving : Queue S ℕ
  pub sending_or_nohand : Queue S ℕ
  pub sended_or_recved : Queue S ℕ

module _ (float : FloatApi) where
  open float use {F, of_nat, add, mul, div, ceil32, ceil64}

  unfoldable pub get_elenum : TransArgs F → ℕ
  get_elenum t = ceil32 (
      mul (mul (div (mul (of_nat t.tfreq) t.sys_lat) (of_nat 1_000_000)) (of_nat t.node_num))
        t.ele_num_scale)

  unfoldable pub get_elesize : TransArgs F → ℕ
  get_elesize t =
      let per_transfer = div (of_nat t.afreq) (of_nat t.tfreq) in
      let per_sensor = mul (mul per_transfer (of_nat t.size_per_data)) (of_nat t.kind_per_sensor) in
      let per_node = mul per_sensor (of_nat t.sensor_num_per_node) in
      ceil64 (mul (mul per_node (of_nat t.node_num)) t.ele_size_scale)

  -- `__rqnum` of a queue.
  unfoldable pub queue_rqnum : TransArgs F → ℕ
  queue_rqnum t =
      let in_flight = div (mul (of_nat t.tfreq) t.sys_lat) (of_nat 1_000_000) in
      ceil32 (mul (mul in_flight (of_nat t.node_num)) t.ele_num_scale)

  -- `__th_num` of the threads that handle data.
  unfoldable pub th_num : TransArgs F → ℕ
  th_num t =
      let seconds = div (add t.th_wait_time t.data_handle_time) (of_nat 1_000_000) in
      ceil64 (mul (mul seconds (of_nat t.tfreq)) (of_nat t.node_num))

  -- `pre_recv_wr` for a queue of `rqnum` slots.
  unfoldable pub pre_recv_wr : TransArgs F → ℕ → ℕ
  pre_recv_wr t rqnum = ceil32 (mul (of_nat rqnum) t.pre_rr_scale)

  -- The constructor of `queues`.
  unfoldable pub queues :
      (api : SemApi)
      → Build
      → TransArgs F
      → QueueBases
      → QueueBases
      → QueueBases
      → Outcome (Queues (api.S))
  queues api build t a b c = do
    x ← Queue.construct api {A = ℕ} build (queue_rqnum t) a.rq_base a.flags_base
    y ← Queue.construct api {A = ℕ} build (queue_rqnum t) b.rq_base b.flags_base
    z ← Queue.construct api {A = ℕ} build (queue_rqnum t) c.rq_base c.flags_base
    ok (record { nosend_or_recving = x; sending_or_nohand = y; sended_or_recved = z })
