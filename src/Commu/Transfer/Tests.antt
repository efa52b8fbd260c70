-- ===== src/Commu/Transfer/Tests.antt =====
-- The threads of src/commu.cpp on concrete queues.
use rfdts.Base.{
  ℕ, ◌≡◌, refl, List, [], ◌∷◌, ◌++◌, true, false, blocked, Option, none, some, other, arith,
}
use rfdts.Sem.Counting.{counting}
use rfdts.Queue.{spsc}
use rfdts.Queue.Repr.{Put, put_last}
use rfdts.Queue.Life.{Built, construct_empty}
use rfdts.Buffers.Samples.{bases}
use rfdts.WrPool.Construct as PoolConstruct
use rfdts.Commu.Transfer.{
  PostApi, Posted, accepted, refused, Client, Server, send, send_while, recv_ahead,
}
use rfdts.Commu.Transfer.Sending.{Holding, Sent, send-Sent, send_waits}
use rfdts.Sem.Api.{Timespec}
use rfdts.Commu.Transfer.{recv_rest}
use rfdts.Commu.Transfer.Late.{Late, recv_rest-Late}
use rfdts.Commu.Transfer.Receiving.{Ready, Ahead, recv_ahead-Ahead}

-- A queue pair that accepts whatever is no null pointer.
abbrev post_any : Option ℕ → List ℕ → Posted (List ℕ)
post_any none p = refused (other 22)
post_any (some x) p = accepted (p ++ x ∷ [])

abbrev any : PostApi
any = record {
  P = List ℕ;
  posted = λ p. p;
  capacity = 256;
  ibv_post = post_any;
  post_lem = λ p x h. (p ++ x ∷ [], refl, refl);
}

abbrev fresh : Built counting ℕ spsc 2 4096 0
fresh = construct_empty counting ℕ spsc 2 4096 0 (omega arith) (omega arith)

abbrev one : Put counting spsc fresh.queue [] 7
one =
    put_last counting spsc fresh.queue [] 7 fresh.sound (omega (arith, fresh.rqnum_eq))
      (omega arith)

abbrev client : Client (counting.S) (List ℕ)
client = record { waiting = one.after; sending = fresh.queue; qp = [] }

client-Holding : Holding counting any spsc client (7 ∷ []) [] []
client-Holding = record {
  waiting = one.sound;
  sending = fresh.sound;
  posted_eq = refl;
  room = omega (arith, fresh.rqnum_eq);
  below = omega arith;
  accepts = omega arith;
}

send-Sent_example :
    Sent counting any spsc (send counting any spsc 2 (λ k. false) client) [] (7 ∷ []) (7 ∷ [])
send-Sent_example =
    send-Sent counting any spsc 2 (λ k. false) 0 client (7 ∷ []) [] [] client-Holding
      (λ j h. absurd (omega (arith, h))) refl (omega arith) (omega arith)

send_waits_example : send_while counting any spsc 5 (λ k. true) 0 client ≡ blocked
send_waits_example =
    send_waits counting any spsc 5 (λ k. true) 0 client (7 ∷ []) [] [] client-Holding (λ j h. refl)

abbrev two : PoolConstruct.Built 8 2 bases
two = PoolConstruct.construct_free 8 2 bases (omega arith) (omega arith) (omega arith)

abbrev server : Server (counting.S) (List ℕ)
server = record { pool = two.pool; receiving = fresh.queue; sem = fresh.queue.count; qp = [] }

server-Ready : Ready counting any spsc server (0 ∷ 1 ∷ []) [] []
server-Ready = record {
  pool = two.sound;
  receiving = fresh.sound;
  posted_eq = refl;
  room = omega (arith, fresh.rqnum_eq);
  below = omega arith;
  accepts = omega arith;
}

recv_ahead-Ahead_example :
    Ahead counting any spsc (recv_ahead counting any spsc 1 server) (1 ∷ []) (0 ∷ []) (0 ∷ [])
recv_ahead-Ahead_example =
    recv_ahead-Ahead counting any spsc server (0 ∷ []) (1 ∷ []) [] [] server-Ready

abbrev noon : Timespec
noon = record { tv_sec = 43_200; tv_nsec = 20_000 }

recv_rest-Late_example :
    Late counting any spsc
      (recv_rest counting any spsc 1 (λ k. noon) 0 server)
      20_000
      (0 ∷ 1 ∷ [])
      []
      []
recv_rest-Late_example =
    recv_rest-Late counting any spsc 1 (λ k. noon) 0 server [] (0 ∷ 1 ∷ []) [] [] server-Ready
      fresh.sound.counts (omega arith)
