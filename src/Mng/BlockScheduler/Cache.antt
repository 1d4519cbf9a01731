-- ===== src/Mng/BlockScheduler/Cache.antt =====
-- The block scheduler and the methods that its caching algorithms share
-- (foxxll/mng/block_scheduler.hpp). The two algorithms differ in the container of the evictable
-- blocks, which is a parameter, and in what they insert there.
pub mod Base
pub mod Valid
pub mod Evicts
pub mod Free
pub mod Takes
pub mod Attaches
pub mod Acquires
pub mod Keeps
pub mod Drops
pub mod Releases
pub mod Initialized
pub mod Extracts
pub mod Deinitializes
pub mod Flushes
use foxxll.Prelude.{
  ℕ, zero, suc, ◌+◌, ◌-◌, Bool, true, false, not, ◌&&◌, ◌||◌, List, [], ◌∷◌, ◌++◌, Option, none,
  some, ltb, ◌==◌, ◌>>=◌, check, update, if◌then◌else◌,
}
use foxxll.Mng.BlockScheduler.{
  SwappableBlock, Store, uninitialized_block, is_internal, is_external, is_acquired, is_evictable,
  is_initialized, make_dirty_if, acquire_block, release_block, get_internal_block, read_sync,
  clean_sync, attach_internal_block, detach_internal_block, deinitialize_block, initialize_block,
  extract_external_block,
}
use foxxll.Mng.BlockScheduler.Evictable.{Evictable}

abbrev pub max_internal_blocks_alloc_at_once : ℕ
max_internal_blocks_alloc_at_once = 128

-- first, first + 1, ..., of which there are n.
unfoldable pub run_of : ℕ → ℕ → List ℕ
run_of first zero = []
run_of first (suc n) = first ∷ run_of (first + 1) n

unfoldable pub num_blocks : ℕ → ℕ
num_blocks remaining =
    if ltb remaining max_internal_blocks_alloc_at_once
    then remaining
    else max_internal_blocks_alloc_at_once

module _ ⦃evictable : Evictable⦄ where
  open evictable use {Queue, Key, insert, erase, pop}

  -- `swappable_blocks` is a map from identifiers; the addresses of internal blocks are counted
  -- upwards from 1. `free_internal_blocks` is the stack from its top on.
  pub record Cache : Type 0 where
    pub remaining_internal_blocks : ℕ
    pub next_internal : ℕ
    pub free_internal_blocks : List ℕ
    pub swappable_blocks : ℕ → SwappableBlock
    pub store : Store
    pub evictable_blocks : Queue

  -- The constructor: all the blocks are free, and no internal block is allocated yet.
  unfoldable pub create : ℕ → Store → Queue → Cache
  create max_internal_blocks s q = record {
    remaining_internal_blocks = max_internal_blocks;
    next_internal = 1;
    free_internal_blocks = [];
    swappable_blocks = λ k. uninitialized_block;
    store = s;
    evictable_blocks = q;
  }

  -- A new array of internal blocks: its first one is returned, the others are free.
  unfoldable pub allocate_array : ℕ → Cache → ℕ × Cache
  allocate_array n c = (
    c.next_internal,
    record c {
      remaining_internal_blocks = c.remaining_internal_blocks - n;
      next_internal = c.next_internal + n;
      free_internal_blocks = run_of (c.next_internal + 1) (n - 1) ++ c.free_internal_blocks;
    },
  )

  -- `block_scheduler::get_free_internal_block`.
  unfoldable pub take_internal : List ℕ → Cache → Option (ℕ × Cache)
  take_internal (iblock ∷ free) c = some (iblock, record c { free_internal_blocks = free })
  take_internal [] c =
      if ltb 0 c.remaining_internal_blocks
      then some (allocate_array (num_blocks c.remaining_internal_blocks) c)
      else none

  unfoldable pub return_free_internal_block : ℕ → Cache → Cache
  return_free_internal_block iblock c = record c {
    free_internal_blocks = iblock ∷ c.free_internal_blocks;
  }

  unfoldable pub set_block : ℕ → SwappableBlock → Cache → Cache
  set_block k b c = record c { swappable_blocks = update k b c.swappable_blocks }

  -- `swappable_blocks[k].detach_internal_block()`.
  unfoldable pub detach : ℕ → Cache → Option (ℕ × Cache)
  detach k c = do
    (iblock, b, s) ← detach_internal_block (c.swappable_blocks k) c.store
    some (iblock, record (set_block k b c) { store = s })

  unfoldable pub evict : Option (ℕ × Queue) → Cache → Option (ℕ × Cache)
  evict none c = none
  evict (some (k, q)) c = detach k (record c { evictable_blocks = q })

  -- `get_free_internal_block` of the algorithms.
  unfoldable pub or_evict : Option (ℕ × Cache) → Cache → Option (ℕ × Cache)
  or_evict (some r) c = some r
  or_evict none c = evict (pop c.evictable_blocks) c

  unfoldable pub get_free_internal_block : Cache → Option (ℕ × Cache)
  get_free_internal_block c = or_evict (take_internal c.free_internal_blocks c) c

  -- `sblock.acquire(); return sblock.get_internal_block();`
  unfoldable pub acquire_at : ℕ → SwappableBlock → Cache → Option (ℕ × Cache)
  acquire_at k b c = do
    b' ← acquire_block b
    iblock ← get_internal_block b'
    some (iblock, set_block k b' c)

  -- The block is internal.
  unfoldable pub acquire_internal : ℕ → SwappableBlock → Cache → Option (ℕ × Cache)
  acquire_internal k b c = acquire_at k b (
      if not (is_acquired b) then record c { evictable_blocks = erase k c.evictable_blocks } else c)

  -- The block has got an internal block: it is read, or left as it is.
  unfoldable pub load : Bool → ℕ → SwappableBlock → Cache → Option (ℕ × Cache)
  load true k b c = do (b', s) ← read_sync b c.store; acquire_at k b' (record c { store = s })
  load false k b c = acquire_at k b c

  unfoldable pub acquire : ℕ → Bool → Cache → Option (ℕ × Cache)
  acquire k uninitialized c =
      let b = c.swappable_blocks k in
      if is_internal b then acquire_internal k b c else (do
        (iblock, c') ← get_free_internal_block c
        b' ← attach_internal_block iblock (c'.swappable_blocks k)
        load (is_initialized b && not uninitialized) k b' c')

  unfoldable pub detach_and_return : ℕ → Cache → Option Cache
  detach_and_return k c = do (iblock, c') ← detach k c; some (return_free_internal_block iblock c')

  -- A block that is no longer acquired.
  unfoldable pub let_go : Key → ℕ → SwappableBlock → Cache → Option Cache
  let_go key k b c =
      if b.dirty || is_external b
      then some (record c { evictable_blocks = insert key k c.evictable_blocks })
      else detach_and_return k c

  -- `release`, with the key that the algorithm inserts the block with.
  unfoldable pub release : (SwappableBlock → Key) → ℕ → Bool → Cache → Option Cache
  release key k dirty c = do
    b ← make_dirty_if dirty (c.swappable_blocks k)
    b' ← release_block b
    if not (is_acquired b')
        then let_go (key b') k b' (set_block k b' c)
        else some (set_block k b' c)

  unfoldable pub erase_evictable : ℕ → Cache → Cache
  erase_evictable k c =
      if is_evictable (c.swappable_blocks k)
      then record c { evictable_blocks = erase k c.evictable_blocks }
      else c

  unfoldable pub return_if : ℕ → Cache → Cache
  return_if iblock c = if iblock == 0 then c else return_free_internal_block iblock c

  unfoldable pub deinitialize : ℕ → Cache → Option Cache
  deinitialize k c = do
    (iblock, b, s) ← deinitialize_block (c.swappable_blocks k) c.store
    some (return_if iblock (record (set_block k b (erase_evictable k c)) { store = s }))

  unfoldable pub initialize : ℕ → ℕ → Cache → Option Cache
  initialize k eblock c = do
    b ← initialize_block eblock (c.swappable_blocks k)
    some (set_block k b c)

  unfoldable pub take_external : ℕ → Cache → Option (ℕ × Cache)
  take_external k c = do
    (eblock, b) ← extract_external_block (c.swappable_blocks k)
    some (eblock, set_block k b c)

  unfoldable pub extract : ℕ → Cache → Option (ℕ × Cache)
  extract k c = do
    c' ←
        (if is_internal (c.swappable_blocks k)
          then detach_and_return k (erase_evictable k c)
          else some c)
    take_external k c'

  -- `swappable_blocks[k].clean_async()`; nothing touches the block before the write is waited for.
  unfoldable pub clean : ℕ → Cache → Option Cache
  clean k c = do
    (b, s) ← clean_sync (c.swappable_blocks k) c.store
    some (record (set_block k b c) { store = s })

  -- `block_scheduler::flush`: every evictable block is written and gives up its internal block.
  unfoldable pub flush : ℕ → Option (ℕ × Queue) → Cache → Option Cache
  flush zero next c = none
  flush (suc n) none c = some c
  flush (suc n) (some (k, q)) c = do
    cleaned ← clean k (record c { evictable_blocks = q })
    c' ← detach_and_return k cleaned
    flush n (pop c'.evictable_blocks) c'
