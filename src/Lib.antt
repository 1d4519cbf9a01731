-- ===== src/Lib.antt =====
-- Verification of FOXXLL (foxxll/), a library of asynchronous block I/O for algorithms on external
-- memory.
--
-- The program. A user of FOXXLL asks the block manager (foxxll/mng/block_manager.hpp) for blocks
-- on disk; an allocation strategy (foxxll/mng/block_alloc_strategy.hpp) says which disk each
-- block is for, and the allocator of that disk (foxxll/mng/disk_block_allocator.hpp and .cpp)
-- finds the bytes. A block is named by a BID (foxxll/mng/bid.hpp): a file, an offset and a size.
-- Blocks in memory come from pools: the write pool keeps blocks while they are written
-- (foxxll/mng/write_pool.hpp), the prefetch pool reads blocks ahead
-- (foxxll/mng/prefetch_pool.hpp), and the read-write pool joins the two so that a read sees the
-- last write (foxxll/mng/read_write_pool.hpp). Every read and write is a request to the queue of
-- its disk, which a worker thread serves (foxxll/io/request_queue_impl_qwqr.cpp and
-- request_queue_impl_worker.cpp). Offsets can be kept in integers of 40 or 48 bits
-- (foxxll/common/uint_types.hpp). The block scheduler keeps more blocks than there is memory for,
-- and swaps them (foxxll/mng/block_scheduler.hpp). A queue from which elements can be taken by
-- their value serves the block scheduler (foxxll/common/addressable_queues.hpp).
--
-- The files.
--   Prelude: shared names, lists over the native numbers, Boolean tests, 64-bit addition and
--     subtraction with their wrap-around, and conversions between signed and unsigned integers.
--   Mng/Bid: `BID` and `BID<0>`; a file is a number, and 0 is the null pointer.
--   Mng/DiskAllocator: `disk_block_allocator`. FreeSpace has the map from offset to size as the
--     sorted list of its entries, NewBlocks has `new_blocks`, and the parent all other methods
--     under their names. Each returns how it ended with the state that it left, since an
--     exception undoes nothing. The other children are about the bytes that a map of free regions
--     covers, which every operation is specified by.
--   Mng/BlockManager: `block_manager` over these allocators; Mng/AllocStrategy: the strategies,
--     also for the blocks of several runs in turn
--     (foxxll/mng/block_alloc_strategy_interleaved.hpp).
--   Mng/Pools: WritePool, PrefetchPool and ReadWritePool, one function for each method. The
--     requests that they start, the blocks that they allocate and delete, and what they cancel
--     are recorded in a World; what the I/O layer answers to a poll is an argument.
--   Mng/BufferedWriter: `buffered_writer` (foxxll/mng/buf_writer.hpp), which writes in batches.
--   Mng/BlockScheduler: `swappable_block`; Cache, the scheduler and the methods of its caching
--     algorithms, which take the container of the evictable blocks as an interface (Evictable);
--     Lru, the container of the online algorithm; Switch, from one caching algorithm to another;
--     Identifiers, which are handed out and freed; Lfd, the offline algorithm that evicts the
--     block with the longest forward distance, and its prediction sequence; Simulation, which
--     records the sequence; Session, a user of the scheduler and the table of blocks that it
--     sees. A pointer to an internal block and a BID are numbers, and 0 is null and invalid. The
--     block manager may refuse a block at any call, and the operation fails then.
--   Mng/BlockPrefetcher: `block_prefetcher` (foxxll/mng/block_prefetcher.hpp) and a reader.
--   Io/DiskQueue: the queue with its worker as steps of threads. A run is any list of steps; a step
--     that is blocked changes nothing.
--   Common/UintPair: `uint_pair`; Common/FifoQueue and Common/PriorityQueue:
--     `addressable_fifo_queue` and `addressable_priority_queue`
--     (foxxll/common/addressable_queues.hpp), against the list of their elements and the map to
--     their priorities.
-- A module called Tests holds runs at concrete inputs.
--
-- Parameters. The semaphore of the queue is tlx's, which is not in this repository: it is an
-- interface, whose laws are those of a counting semaphore, and Io/DiskQueue/Tests gives one. The
-- device says which sizes it accepts (`Storage.accepts`). A random generator, `std::shuffle` and
-- the polling of requests are functions or numbers that are given, and so is what the block manager
-- answers to the block scheduler.
--
-- Bounds and fuel. Bytes are numbers of 64 bits and wrap around; the theorems that count bytes
-- ask for a disk or a total below 2^64. `new_blocks` of a disk halves its range when no region is
-- large enough; the depth of the recursion is bounded by one more than the length of the range,
-- which each call at least halves, rounded up, down to one block. `flush` of the block scheduler,
-- and the switch of its algorithm, make one round more than there are evictable blocks, and the
-- reader of the prefetcher one more than there are blocks. All other loops are structural.
--
-- What is not modelled: the files of the operating system, Linux AIO and the state of a single
-- request, statistics, timers and the parser of the configuration, which are calls of the
-- operating system or bookkeeping; the offline algorithm of the block scheduler that prefetches,
-- the buffered streams and the optimal prefetch schedule, which stand on the parts above. Log
-- output is left out everywhere. An `assert` is an error of its own where the model can reach it.
pub mod Common
pub mod Io
pub mod Mng
pub mod Prelude
