-- ===== src/TransArgs/Capacity.antt =====
-- A pool and queues that are made from the same parameters of src/trans_args.hpp.
use mathlib.Core.List.{Perm}
use rfdts.Base.{
  ℕ, suc, ◌+◌, ◌^◌, ◌≤◌, ◌<◌, ◌≡◌, refl, ◌∙◌, ap, List, [], ◌∷◌, ◌++◌, Outcome, ok, length,
  length-append, arith,
}
use rfdts.Sem.Api.{SemApi}
use rfdts.Buffers.{Bases}
use rfdts.Queue.{Queue, Build}
use rfdts.Queue.Repr.{Repr, Put, put_last}
use rfdts.Queue.Life as QueueLife
use rfdts.Pool.Users.{size-of, length-perm}
use rfdts.WrPool.{WrPool, construct}
use rfdts.WrPool.Life.{wr_pool_laws}
use rfdts.WrPool.Use.{UsedFrom, accounted}
use rfdts.TransArgs.{
  FloatApi, TransArgs, QueueBases, Queues, get_elenum, get_elesize, queue_rqnum, queues,
}

module _ (float : FloatApi) where
  open float use {F}

  rqnum_eq : (t : TransArgs F) → queue_rqnum float t ≡ get_elenum float t
  unfolding queue_rqnum get_elenum
  rqnum_eq t = refl

  bounded : (t : TransArgs F) → queue_rqnum float t < 2 ^ 32
  unfolding queue_rqnum
  bounded t = float.ceil32_lt _

  -- Three empty queues with as many slots as there are elements.
  pub record Empty (api : SemApi) (build : Build) (elenum : ℕ) (o : Outcome (Queues (api.S)))
      : Type 0 where
    pub made : Queues (api.S)
    pub returns : o ≡ ok made
    pub first : Repr api build made.nosend_or_recving []
    pub second : Repr api build made.sending_or_nohand []
    pub third : Repr api build made.sended_or_recved []
    pub first_size : made.nosend_or_recving.rqnum ≡ elenum
    pub second_size : made.sending_or_nohand.rqnum ≡ elenum
    pub third_size : made.sended_or_recved.rqnum ≡ elenum

  -- When the parameters give at least one element, the constructor of `queues` returns three
  -- sound empty queues, each with as many slots as the pool has elements.
  pub queues-Empty :
      (api : SemApi) (build : Build) (t : TransArgs F) (a b c : QueueBases)
      → 0 < get_elenum float t
      → Empty api build (get_elenum float t) (queues float api build t a b c)
  unfolding queues
  queues-Empty api build t a b c h =
      let n = queue_rqnum float t in
      let positive : 0 < n = rw (rqnum_eq t) h in
      let small : n < 2 ^ 32 = bounded t in
      let x = QueueLife.construct_empty api ℕ build n a.rq_base a.flags_base positive small in
      let y = QueueLife.construct_empty api ℕ build n b.rq_base b.flags_base positive small in
      let z = QueueLife.construct_empty api ℕ build n c.rq_base c.flags_base positive small in
      record {
        made = record {
          nosend_or_recving = x.queue;
          sending_or_nohand = y.queue;
          sended_or_recved = z.queue;
        };
        returns = rw (x.returns, y.returns, z.returns) refl;
        first = x.sound;
        second = y.sound;
        third = z.sound;
        first_size = x.rqnum_eq ∙ rqnum_eq t;
        second_size = y.rqnum_eq ∙ rqnum_eq t;
        third_size = z.rqnum_eq ∙ rqnum_eq t;
      }

  -- With a `wr_pool` and a queue of the sizes that the same transmission parameters give,
  -- positive, the pool's slots fewer than 2 ^ 32 and the queue's no more than a semaphore counts,
  -- after any calls of the pool's `get` and of its `put` with a held work request, a sound queue
  -- of held work requests accepts one more that is held besides these as its last: it is never
  -- full, and `put` overwrites nothing.
  pub put_has_room :
      (api : SemApi) (build : Build) (t : TransArgs F) (bases : Bases)
      → 0 < get_elesize float t
      → 0 < get_elenum float t
      → get_elenum float t + 1 < 2 ^ 32
      → (made pool : WrPool) (held : List ℕ)
      → construct (get_elesize float t) (get_elenum float t) bases ≡ ok made
      → UsedFrom (get_elenum float t) made pool held
      → (p : Queue (api.S) ℕ) (q others : List ℕ) (e : ℕ) → Repr api build p q
      → p.rqnum ≡ queue_rqnum float t
      → queue_rqnum float t ≤ api.value_max
      → Perm held (e ∷ q ++ others)
      → Put api build p q e
  put_has_room api build t bases s n w made pool held c u p q others e r size below perm =
      let a = accounted (get_elesize float t) (get_elenum float t) bases s n w c u in
      let total = size-of (wr_pool_laws (get_elenum float t)) a in
      let parts : length held ≡ suc (length q + length others) =
        length-perm perm ∙ ap suc (length-append q others) in
      put_last api build p q e r (omega (arith, size, rqnum_eq t, total, parts))
        (omega (arith, below, rqnum_eq t, total, parts))
