-- ===== src/Mng/BlockScheduler/Session/Refines.antt =====
-- The block scheduler (foxxll/mng/block_scheduler.hpp) and the table of blocks that its user sees.
use foxxll.Mng.BlockScheduler.{SwappableBlock}
use foxxll.Mng.BlockScheduler.Evictable.{Evictable}
use foxxll.Mng.BlockScheduler.Session.{
  Operation, acquiring, writing, releasing, deinitializing, initializing, extracting, flushing,
  Session, perform, Allowed, Sound, Outcome,
}
use foxxll.Mng.BlockScheduler.Session.Acquiring.{acquiring-Outcome, writing-Outcome}
use foxxll.Mng.BlockScheduler.Session.Releasing.{releasing-Outcome}
use foxxll.Mng.BlockScheduler.Session.Returning.{
  deinitializing-Outcome, initializing-Outcome, extracting-Outcome, flushing-Outcome,
}

module _ ⦃evictable : Evictable⦄ where
  open evictable use {Key}

  -- To a user who releases what it changed as dirty, and who initializes a block only with an external
  -- block of its own, which no swappable block has and which has not been deleted, the scheduler is a table of blocks with data and reference counts,
  -- whatever container holds the evictable blocks and whatever is evicted and read back in between. In
  -- a session where the scheduler is consistent and blocks acquired and not changed are as on disk,
  -- each operation keeps that true and all other blocks of the table as they are, and changes block k so:
  -- acquire adds a reference and keeps the data, if the block was acquired or had data that were not
  -- declined; a write gives the data; release takes a reference and keeps the data unless it was the
  -- last and the block has neither been initialized nor released as dirty; deinitialize and extract leave no data,
  -- initialize those of the external block; and flush changes nothing. An operation is refused only
  -- so: acquire if the block is not acquired and no internal block is free or left to allocate and
  -- none can be evicted, as all are in use by acquired blocks or the one to be evicted is dirty, has no
  -- external block, and the block manager has none; a write or release if the block is not acquired or
  -- the release is not honest; deinitialize if it is acquired; extract if it is acquired, or is dirty
  -- and has no external block and the block manager has none; initialize if it is initialized; flush
  -- if an evictable block is dirty and has no external block and the block manager refuses one of the
  -- blocks that it is asked for from then on.
  pub perform-Outcome :
      (key : SwappableBlock → Key) (op : Operation) (s : Session)
      → Sound s
      → Allowed op s
      → Outcome op s (perform key op s)
  perform-Outcome key (acquiring k u) s v a = acquiring-Outcome key k u s v
  perform-Outcome key (writing k x) s v a = writing-Outcome key k x s v
  perform-Outcome key (releasing k d) s v a = releasing-Outcome key k d s v
  perform-Outcome key (deinitializing k) s v a = deinitializing-Outcome key k s v
  perform-Outcome key (initializing k e) s v a = initializing-Outcome key k e s v a
  perform-Outcome key (extracting k) s v a = extracting-Outcome key k s v
  perform-Outcome key flushing s v a = flushing-Outcome key s v
