-- ===== src/MemPool.antt =====
-- The four older pools of src/mem_pool.hpp, which differ in the number of their writers and in how
-- reader and writers synchronise, and the constants of src/magic_macro.hpp.
pub mod Waiting
pub mod SpscSem
pub mod MpscSem
pub mod SpscAtomic
pub mod MpscAtomic
