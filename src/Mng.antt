-- ===== src/Mng.antt =====
-- The block management layer (foxxll/mng).
pub mod Bid
pub mod DiskAllocator
pub mod Pools
pub mod BlockManager
pub mod AllocStrategy
pub mod BufferedWriter
pub mod BlockScheduler
pub mod BlockPrefetcher
