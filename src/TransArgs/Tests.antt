-- ===== src/TransArgs/Tests.antt =====
-- The sizes of src/trans_args.hpp over whole numbers, and the pool and queues made from them.
use mathlib.Core.List.Perm
use rfdts.Base.{ℕ, ◌+◌, ◌*◌, ◌/◌, ◌%◌, ◌^◌, ◌<◌, ◌≡◌, refl, subst, upto, [], ◌∷◌, arith}
use rfdts.Sem.Counting.{counting}
use rfdts.Buffers.Samples.{bases}
use rfdts.Pool.Users.{start, later, acquire}
use rfdts.Queue.{spmc}
use rfdts.Queue.Repr.{Put}
use rfdts.Queue.Life as QueueLife
use rfdts.WrPool.Construct as PoolConstruct
use rfdts.WrPool.Repr as PoolRepr
use rfdts.WrPool.Use.{UsedFrom}
use rfdts.TransArgs.{FloatApi, TransArgs, QueueBases, get_elenum, get_elesize, queue_rqnum, queues}
use rfdts.TransArgs.Capacity.{Empty, queues-Empty, put_has_room}

below32 : (x : ℕ) → x % 2 ^ 32 < 2 ^ 32
below32 x = omega arith

abbrev whole : FloatApi
whole = record {
  F = ℕ;
  of_nat = λ n. n;
  add = λ x y. x + y;
  mul = λ x y. x * y;
  div = λ x y. x / y;
  ceil32 = λ x. x % 2 ^ 32;
  ceil64 = λ x. x % 2 ^ 64;
  ceil32_lt = λ x. below32 x;
}

abbrev args : TransArgs ℕ
args = record {
  size_per_data = 48;
  afreq = 2_000_000;
  tfreq = 1_000_000;
  kind_per_sensor = 1;
  sensor_num_per_node = 1;
  node_num = 1;
  ele_size_scale = 1;
  ele_num_scale = 2;
  th_wait_time = 1;
  data_handle_time = 1;
  sys_lat = 1;
  pre_rr_scale = 1;
}

elenum_eq : get_elenum whole args ≡ 2
unfolding get_elenum
elenum_eq = refl

elesize_eq : get_elesize whole args ≡ 96
unfolding get_elesize
elesize_eq = refl

rqnum_eq : queue_rqnum whole args ≡ 2
unfolding queue_rqnum
rqnum_eq = refl

abbrev at : ℕ → QueueBases
at n = record { rq_base = n; flags_base = n + 64 }

queues-Empty_example :
    Empty whole counting spmc
      (get_elenum whole args)
      (queues whole counting spmc args (at 64) (at 256) (at 512))
queues-Empty_example =
    queues-Empty whole counting spmc args (at 64) (at 256) (at 512) (omega (arith, elenum_eq))

abbrev two : PoolConstruct.Built (get_elesize whole args) (get_elenum whole args) bases
two =
    PoolConstruct.construct_free (get_elesize whole args) (get_elenum whole args) bases
      (omega (arith, elesize_eq)) (omega (arith, elenum_eq)) (omega (arith, elenum_eq))

two_Repr : PoolRepr.Repr two.pool (0 ∷ 1 ∷ [])
two_Repr = subst (λ n. PoolRepr.Repr two.pool (upto n)) elenum_eq two.sound

abbrev taken : PoolRepr.Got two.pool 0 (1 ∷ [])
taken = PoolRepr.get_next two.pool 0 (1 ∷ []) two_Repr

taken_once : UsedFrom (get_elenum whole args) two.pool taken.after (0 ∷ [])
taken_once = later start (acquire tt 0 taken.after taken.returns)

abbrev fresh : QueueLife.Built counting ℕ spmc (queue_rqnum whole args) 64 128
fresh =
    QueueLife.construct_empty counting ℕ spmc (queue_rqnum whole args) 64 128
      (omega (arith, rqnum_eq)) (omega (arith, rqnum_eq))

put_has_room_example : Put counting spmc fresh.queue [] 0
put_has_room_example =
    put_has_room whole counting spmc args bases (omega (arith, elesize_eq))
      (omega (arith, elenum_eq)) (omega (arith, elenum_eq)) two.pool taken.after (0 ∷ [])
      two.returns taken_once fresh.queue [] [] 0 fresh.sound fresh.rqnum_eq
      (omega (arith, rqnum_eq)) (Perm.refl (0 ∷ []))
