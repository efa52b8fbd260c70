-- ===== src/MemPool/SpscSem/Getters.antt =====
-- The getters of `spsc_sem_mem_pool` in src/mem_pool.hpp, which tell where its blocks are and how many
-- bytes they have; `size` is `sizeof` of an element of the block.
use rfdts.Base.{ℕ, ◌*◌}
use rfdts.Base.Words.{u64}
use rfdts.MemPool.SpscSem.{SpscSemMemPool}

unfoldable pub get_mrs_addr : {S : Type 0} → SpscSemMemPool S → ℕ
get_mrs_addr p = p.addr

unfoldable pub get_mrs_length : {S : Type 0} → SpscSemMemPool S → ℕ
get_mrs_length p = p.length

unfoldable pub get_wrs_addr : {S : Type 0} → SpscSemMemPool S → ℕ
get_wrs_addr p = p.wrs.base

unfoldable pub get_wrs_length : {S : Type 0} → ℕ → SpscSemMemPool S → ℕ
get_wrs_length size p = u64 (size * p.elenum)

unfoldable pub get_sgs_addr : {S : Type 0} → SpscSemMemPool S → ℕ
get_sgs_addr p = p.sg_lists.base

unfoldable pub get_sgs_length : {S : Type 0} → ℕ → SpscSemMemPool S → ℕ
get_sgs_length size p = u64 (size * p.elenum)

unfoldable pub get_rq_addr : {S : Type 0} → SpscSemMemPool S → ℕ
get_rq_addr p = p.ringqueue.slots.base

unfoldable pub get_rq_length : {S : Type 0} → ℕ → SpscSemMemPool S → ℕ
get_rq_length size p = u64 (size * p.elenum)
