-- ===== src/MemPool/MpscAtomic/Tests.antt =====
-- `mpsc_atomic_mem_pool` of src/mem_pool.hpp on concrete inputs.
use rfdts.Base.{
  zero, suc, read, write, store, ℕ, ◌≡◌, refl, Option, some, Outcome, ok, exited, failure, fault,
  arith, ◌+◌, ◌*◌, length,
}
use rfdts.Ring.{take_slot}
use rfdts.Buffers.{prepare, stamp}
use rfdts.MemPool.Waiting.{await}
use rfdts.Buffers.Samples.{bases}
use rfdts.MemPool.MpscAtomic.{
  MpscAtomicMemPool, construct, members, fill, fill_from, get, tryget, put,
}
use rfdts.Base.Words.{u64}
use rfdts.MemPool.MpscAtomic.Getters.{
  get_wrs_length, get_sgs_length, get_flags_length, get_rq_length,
}
use rfdts.MemPool.MpscAtomic.Sizes.{construct-lengths}
use rfdts.MemPool.MpscAtomic.Bounds.{none_yet, by_get, put_past_end, tryget_never_reloads}

abbrev pool_of : Outcome MpscAtomicMemPool → MpscAtomicMemPool
unfolding members
pool_of (ok p) = p
pool_of _ = members 8 2 bases

abbrev left_by : Outcome (Option ℕ × MpscAtomicMemPool) → MpscAtomicMemPool
unfolding members
left_by (ok p) = p.1
left_by _ = members 8 2 bases

abbrev two : MpscAtomicMemPool
unfolding construct
two = pool_of (construct 8 2 bases)

made : construct 8 2 bases ≡ ok two
unfolding two fill_from fill prepare read members store write
made = refl

abbrev loads : ℕ → ℕ
loads k = 2

abbrev one_left : MpscAtomicMemPool
unfolding get two
one_left = left_by (get loads 1 two)

taken : get loads 1 two ≡ ok (some 0, one_left)
unfolding one_left await pool_of fill_from fill prepare read store write take_slot stamp
taken = refl

put_past_end_example : put one_left (some 0) ≡ fault
put_past_end_example =
    put_past_end 8 2 bases (omega arith) made (by_get loads 1 none_yet taken) (some 0)

abbrev later_loads : ℕ → ℕ
later_loads zero = 0
later_loads (suc k) = 2

tryget_never_reloads_example : tryget later_loads two ≡ exited failure
unfolding two pool_of fill_from fill prepare read store write
tryget_never_reloads_example = tryget_never_reloads later_loads two refl

construct-lengths_example :
    (get_wrs_length 8 two ≡ u64 (8 * length two.wrs.cells))
    × (get_sgs_length 8 two ≡ u64 (8 * length two.sg_lists.cells))
    × (get_rq_length 8 two ≡ u64 (8 * (length two.ringqueue.slots.cells + 1)))
    × (get_flags_length 8 two ≡ u64 (8 * (length two.rq_flag.cells + 1)))
construct-lengths_example = construct-lengths 8 2 8 bases two (omega arith) made
