-- ===== src/Lib.antt =====
-- The memory pools, the queue, the semaphore and the shared memory of a fast transmission system
-- over RDMA.
--
-- A sender or a receiver of the system registers one region of memory with the network card, cuts
-- it into elements, and describes each element by a work request with one scatter-gather entry. A
-- pool hands work requests out to the threads that post them and takes them back when they are
-- done; a queue passes received ones to the threads that handle their data. Both keep pointers in
-- a ring with a front and a rear, and differ in how many readers and writers they admit and in
-- what synchronises them: a POSIX semaphore, atomic loads and stores, and a flag for each slot.
--
-- Files, and the code that they model:
--   Base: lists, numbers and the endings of calls, for all the others. A call returns (`ok`), waits
--     for another thread (`blocked`), ends the program (`exited`) or uses a null pointer or an index
--     out of bounds (`fault`). Base/Copy: `memcpy` and `memset`.
--   Ring: the circular array of src/wr_pool.hpp, src/queue.hpp and src/mem_pool.hpp. Ring/Position
--     has the arithmetic of places, Ring/Holds what a ring holds, Ring/Flagged its flags, Ring/Clear
--     its empty slots.
--   Buffers: the region, work requests and scatter-gather entries of a pool. A pointer to a work
--     request is `some` of its index, `nullptr` is `none`; addresses are those that `new` returned,
--     given to the constructors as `Bases`. Buffers/Layout: where the elements lie.
--   Pool: the interface of a pool as its users see it, with the program of users that put back only
--     what they took (Pool/Users). The pools below fill it in their modules Life and Use.
--   WrPool: src/wr_pool.hpp, as built with RFTS_MPSC.
--   Sem: src/sem.hpp. The calls sem_init, sem_open, sem_post and the others are the parameter
--     Sem.Api.SemApi; Sem/Counting fills it with a counter.
--   Queue: src/queue.hpp, in its builds RFTS_SPMC and RFTS_MPSC.
--   MemPool: the four pools of src/mem_pool.hpp. SpscSem and MpscSem wait on a semaphore. SpscAtomic
--     and MpscAtomic wait in loops on an atomic, which are in MemPool/Waiting.
--   Shm: src/shm.hpp, a mapped shared memory with a cursor. Shm/Segment: how it is opened and
--     released, over the system's calls as the parameter Shm.Segment.ShmApi.
--   DataHandle: src/handle_data.hpp, the threads that it starts, joins and passes on, and
--     DataHandle/Worker, the loop that each of them runs.
--   TransArgs: the sizes that src/trans_args.hpp and the constructors of src/queue.hpp and
--     src/handle_data.hpp compute from the parameters of a transmission, over the arithmetic of
--     `float` as the parameter TransArgs.FloatApi.
--   Commu: src/commu.cpp, the objects of a connection in libibverbs, over its calls as the
--     parameter Commu.Api.VerbsApi, which Commu/Stacked fills. Commu/Refusal: how far the constructor
--     has come when it is refused something. Commu/Transfer: the thread that posts work requests,
--     which joins pool and queues. The file cannot be compiled as it stands;
--     where it cannot, the model has what is meant.
-- Each operation has the name of the member function. `construct`, `move` and `destroy` are
-- constructor, move constructor and destructor, and `fill` is the body of a constructor's loop.
-- Modules named Repr say when an object is sound and what each call does to it, Life and Use how it
-- begins, is used and ends, Tests have concrete inputs.
--
-- Machine words: a uint32_t or uint64_t is a natural number, and where the code can wrap around the
-- remainder is written out (`u32`, `u64`). `step32` and `step64` advance a position in a variable of
-- that width. An off_t is its 64-bit pattern.
--
-- Threads: the operations are those of one thread at a time. What other threads do is seen in these
-- places: a call that would wait for them is `blocked`; a loop on an atomic of the atomic pools is
-- given all the values that its loads return, as the loops of Commu/Transfer and DataHandle/Worker
-- are given what their tests of `start` load; and MemPool/SpscAtomic/Threads cuts `get` and `put`
-- of one pool, and WrPool/Race `put` of another, into steps that interleave in any order, each seen
-- at once by all threads. A compare-and-exchange succeeds when the value is the expected one. A
-- thread that is joined ends.
--
-- A loop on an atomic has no bound of its own, so it runs on fuel, one unit for each test. It is
-- `blocked` when the fuel runs out, and any fuel above the number of the load that shows a change is
-- enough. A constructor's loop recurses on the number of rounds left, which is that of the elements;
-- that of `datahandle`, whose index can wrap around, runs on fuel too, where one unit more than there
-- are threads is enough.
--
-- A loop of a thread that waits or works while `start` is set runs on fuel too, one unit for each
-- round; one unit more than elements wait is enough.
--
-- Not modelled: the operator of src/trans_args.hpp that prints; what src/handle_data.hpp prints of a
-- record; src/get_clock_us.hpp and src/get_clock_ns.hpp, which are copies of get_clock.h of another
-- project, the perftest package of Mellanox; the shell script, records and tests; the order in
-- which several processors see relaxed loads and stores.
pub mod Base
pub mod Ring
pub mod Buffers
pub mod Pool
pub mod WrPool
pub mod Sem
pub mod Shm
pub mod Queue
pub mod MemPool
pub mod Commu
pub mod TransArgs
pub mod DataHandle
