-- ===== src/Buffers.antt =====
-- What every pool keeps beside its ring: the registered region, one scatter-gather entry and one
-- work request for each element, and the counter of work request ids (src/wr_pool.hpp,
-- src/mem_pool.hpp). A pointer to a work request or an entry is its index in the pool's array.
pub mod Layout
pub mod Samples
use rfdts.Base.{
  ℕ, ◌+◌, ◌*◌, Option, none, some, Outcome, ok, fault, ◌>>=◌, Array, allocate, load, store,
}
use rfdts.Base.Words.{u32, u64}

-- The fields of `ibv_sge` that the pools write.
pub record Sge : Type 0 where
  pub addr : ℕ
  pub length : ℕ

pub data Opcode : Type 0 where
  initial ibv_wr_send : Opcode

-- The fields of `ibv_send_wr` and `ibv_recv_wr` that the pools write. The latter has no opcode:
-- its field stays `initial`.
pub record WorkRequest : Type 0 where
  pub wr_id : ℕ
  pub next : Option ℕ
  pub sg_list : Option ℕ
  pub num_sge : ℕ
  pub opcode : Opcode

-- Where the allocator puts each block.
pub record Bases : Type 0 where
  pub addr_base : ℕ
  pub wrs_base : ℕ
  pub sg_lists_base : ℕ
  pub rq_base : ℕ
  pub flags_base : ℕ

-- `addr` is 0 once another pool has taken the region over.
pub record Buffers : Type 0 where
  pub elesize : ℕ
  pub elenum : ℕ
  pub length : ℕ
  pub addr : ℕ
  pub wrs : Array WorkRequest
  pub sg_lists : Array Sge
  pub wr_id : ℕ

abbrev pub zero_sge : Sge
zero_sge = record { addr = 0; length = 0 }

abbrev pub zero_wr : WorkRequest
zero_wr = record { wr_id = 0; next = none; sg_list = none; num_sge = 0; opcode = initial }

-- The member initialisers.
unfoldable pub initial_buffers : ℕ → ℕ → Bases → Buffers
initial_buffers elesize elenum bases = record {
  elesize = elesize;
  elenum = elenum;
  length = u64 (elesize * elenum);
  addr = bases.addr_base;
  wrs = allocate bases.wrs_base elenum zero_wr;
  sg_lists = allocate bases.sg_lists_base elenum zero_sge;
  wr_id = 0;
}

-- The address `__addr + i * __elesize`.
abbrev pub element_addr : Buffers → ℕ → ℕ
element_addr b i = u64 (b.addr + u64 (i * b.elesize))

-- The part of a constructor's loop body that prepares entry and work request `i`.
unfoldable pub prepare : (Opcode → Opcode) → Buffers → ℕ → Outcome Buffers
prepare opcode b i = do
  s ← load b.sg_lists i
  sg_lists ← store b.sg_lists i (record s { addr = element_addr b i; length = u32 b.elesize })
  w ← load b.wrs i
  wrs ←
      store b.wrs i
        (record w { next = none; sg_list = some i; num_sge = 1; opcode = opcode w.opcode })
  ok (record b { wrs = wrs; sg_lists = sg_lists })

-- `temp->wr_id = ++__wr_id`.
unfoldable pub stamp : Buffers → Option ℕ → Outcome Buffers
stamp b none = fault
stamp b (some i) = do
  w ← load b.wrs i
  let id = u64 (b.wr_id + 1)
  wrs ← store b.wrs i (record w { wr_id = id })
  ok (record b { wrs = wrs; wr_id = id })
