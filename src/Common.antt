-- ===== src/Common.antt =====
-- The shared types and tools of foxxll/common.
pub mod UintPair
pub mod FifoQueue
pub mod PriorityQueue
