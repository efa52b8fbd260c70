-- ===== src/MemPool/MpscAtomic/Sizes.antt =====
-- What the getters of `mpsc_atomic_mem_pool` in src/mem_pool.hpp say of its blocks.
use rfdts.Base.{ℕ, ◌+◌, ◌*◌, ◌^◌, ◌<◌, ◌≡◌, sym, subst, ◌∙◌, ap, ok, length, ok_inj}
use rfdts.Base.Words.{u64}
use rfdts.Buffers.{Bases}
use rfdts.MemPool.MpscAtomic.{MpscAtomicMemPool, construct}
use rfdts.MemPool.MpscAtomic.Getters.{
  get_wrs_length, get_sgs_length, get_flags_length, get_rq_length,
}
use rfdts.MemPool.MpscAtomic.Bounds.{Filled, construct-Filled}

bytes : (size : ℕ) {m n : ℕ} → m ≡ n → u64 (size * m) ≡ u64 (size * n)
bytes size e = ap (λ k. u64 (size * k)) e

-- After the constructor of `mpsc_atomic_mem_pool` with fewer than 2 ^ 32 - 1 elements, the
-- getters tell of work requests and scatter-gather entries the number of bytes that were
-- allocated, and of the ring and the flags one element more than that.
pub construct-lengths :
    (elesize elenum size : ℕ) (bases : Bases) (p : MpscAtomicMemPool)
    → elenum + 1 < 2 ^ 32
    → construct elesize elenum bases ≡ ok p
    → (get_wrs_length size p ≡ u64 (size * length p.wrs.cells))
      × (get_sgs_length size p ≡ u64 (size * length p.sg_lists.cells))
      × (get_rq_length size p ≡ u64 (size * (length p.ringqueue.slots.cells + 1)))
      × (get_flags_length size p ≡ u64 (size * (length p.rq_flag.cells + 1)))
unfolding get_wrs_length get_sgs_length get_rq_length get_flags_length
construct-lengths elesize elenum size bases p w made =
    let (p', made', f') = construct-Filled elesize elenum bases w in
    let f : Filled elenum elenum p = subst (Filled elenum elenum) (ok_inj (sym made' ∙ made)) f' in
    (
      bytes size (sym f.laid.wrs_size),
      bytes size (sym f.laid.sg_size),
      bytes size (f.rqnum_eq ∙ ap (λ k. k + 1) (sym f.slots_size)),
      bytes size (f.rqnum_eq ∙ ap (λ k. k + 1) (sym f.flags_size)),
    )
