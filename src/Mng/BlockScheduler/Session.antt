-- ===== src/Mng/BlockScheduler/Session.antt =====
-- The block scheduler of foxxll/mng/block_scheduler.hpp and a user of it, who changes the blocks that
-- are acquired, and what the user relies on: a table of blocks with data and references.
pub mod Steps
pub mod Acquiring
pub mod Returning
pub mod Releasing
pub mod Refines
use foxxll.Prelude.{
  ℕ, ◌+◌, ◌<◌, ◌≡◌, ◌≢◌, Bool, true, false, not, ◌&&◌, ◌||◌, Option, none, some, ltb, if◌then◌else◌,
  ◌⊎◌, check, update, ◌>>=◌, List, [], ◌∷◌,
}
use foxxll.Mng.BlockScheduler.{SwappableBlock, Store, is_acquired, is_initialized}
use foxxll.Mng.BlockScheduler.Detach.{IsFull}
use foxxll.Mng.BlockScheduler.Evictable.{Evictable}
use foxxll.Mng.BlockScheduler.Cache.{
  Cache, acquire, release, deinitialize, initialize, extract, flush,
}
use foxxll.Mng.BlockScheduler.Cache.Valid.{Saved, has_data, content, Consistent}
use foxxll.Mng.BlockScheduler.Cache.Takes.{IsExhausted, IsStuck}
use foxxll.Mng.BlockScheduler.Cache.Initialized.{IsUnused}
use foxxll.Mng.BlockScheduler.Cache.Flushes.{FillsDisk}

pub data Operation : Type 0 where
  acquiring : ℕ → Bool → Operation
  writing : ℕ → ℕ → Operation
  releasing : ℕ → Bool → Operation
  deinitializing : ℕ → Operation
  initializing : ℕ → ℕ → Operation
  extracting : ℕ → Operation
  flushing : Operation

module _ ⦃evictable : Evictable⦄ where
  open evictable use {Key, pop, size}

  -- `touched` has the blocks that the user may have changed since they were acquired.
  pub record Session : Type 0 where
    pub cache : Cache
    pub touched : ℕ → Bool

  -- The user writes into an acquired block.
  unfoldable pub write_block : ℕ → ℕ → Cache → Cache
  write_block k v c = record c {
    store = record (c.store) {
      memory = update (c.swappable_blocks k).internal_data v c.store.memory;
    };
  }

  -- The user's rule: a block that has been changed is released as dirty, but for one that is so
  -- already.
  unfoldable pub is_honest : ℕ → Bool → Session → Bool
  is_honest k dirty s = (dirty || (s.cache.swappable_blocks k).dirty) || not (s.touched k)

  unfoldable pub perform : (SwappableBlock → Key) → Operation → Session → Option Session
  perform key (acquiring k uninitialized) s = do
    (iblock, c) ← acquire k uninitialized s.cache
    some (record {
      cache = c;
      touched = if uninitialized then update k true s.touched else s.touched;
    })
  perform key (writing k v) s =
      check (is_acquired (s.cache.swappable_blocks k))
        (some (record { cache = write_block k v s.cache; touched = update k true s.touched }))
  perform key (releasing k dirty) s = check (is_honest k dirty s) (do
    c ← release key k dirty s.cache
    some (record {
      cache = c;
      touched = update k (s.touched k && is_acquired (c.swappable_blocks k)) s.touched;
    }))
  perform key (deinitializing k) s = do c ← deinitialize k s.cache; some (record s { cache = c })
  perform key (initializing k e) s = do c ← initialize k e s.cache; some (record s { cache = c })
  perform key (extracting k) s = do (e, c) ← extract k s.cache; some (record s { cache = c })
  perform key flushing s = do
    c ← flush (size s.cache.evictable_blocks + 1) (pop s.cache.evictable_blocks) s.cache
    some (record s { cache = c })

  -- What the user sees of a block.
  abbrev pub contents : Session → ℕ → Option ℕ
  contents s j = content j s.cache

  abbrev pub counts : Session → ℕ → ℕ
  counts s j = (s.cache.swappable_blocks j).reference_count

  -- Whether the block keeps its data when it is released by its last user.
  abbrev pub keeps : Session → ℕ → Bool
  keeps s j = has_data (s.cache.swappable_blocks j)

  pub record Same (s s' : Session) (j : ℕ) : Type 0 where
    pub same_contents : contents s' j ≡ contents s j
    pub same_counts : counts s' j ≡ counts s j
    pub same_keeps : keeps s' j ≡ keeps s j

  -- The table of blocks after an operation.
  abbrev pub Follows : Operation → Session → Session → Type 0
  Follows (acquiring k uninitialized) s s' =
      (counts s' k ≡ counts s k + 1)
      × (keeps s' k ≡ keeps s k)
      × ((0 < counts s k) ⊎ ((uninitialized ≡ false) × (contents s k ≢ none))
          → contents s' k ≡ contents s k)
      × ((j : ℕ) → j ≢ k → Same s s' j)
  Follows (writing k v) s s' =
      (counts s' k ≡ counts s k)
      × (keeps s' k ≡ keeps s k)
      × (contents s' k ≡ some v)
      × ((j : ℕ) → j ≢ k → Same s s' j)
  Follows (releasing k dirty) s s' =
      (counts s' k + 1 ≡ counts s k)
      × (keeps s' k ≡ (dirty || keeps s k))
      × (contents s' k ≡ (if keeps s' k || ltb 0 (counts s' k) then contents s k else none))
      × ((j : ℕ) → j ≢ k → Same s s' j)
  Follows (deinitializing k) s s' =
      (counts s' k ≡ 0)
      × (keeps s' k ≡ false)
      × (contents s' k ≡ none)
      × ((j : ℕ) → j ≢ k → Same s s' j)
  Follows (initializing k e) s s' =
      (counts s' k ≡ 0)
      × (keeps s' k ≡ true)
      × (contents s' k ≡ some (s.cache.store.disk e))
      × ((j : ℕ) → j ≢ k → Same s s' j)
  Follows (extracting k) s s' =
      (counts s' k ≡ 0)
      × (keeps s' k ≡ false)
      × (contents s' k ≡ none)
      × ((j : ℕ) → j ≢ k → Same s s' j)
  Follows flushing s s' = (j : ℕ) → Same s s' j

  -- Why an operation is refused.
  abbrev pub Refused : Operation → Session → Type 0
  Refused (acquiring k uninitialized) s = (counts s k ≡ 0) × (IsExhausted s.cache ⊎ IsStuck s.cache)
  Refused (writing k v) s = counts s k ≡ 0
  Refused (releasing k dirty) s = (counts s k ≡ 0) ⊎ (is_honest k dirty s ≡ false)
  Refused (deinitializing k) s = 0 < counts s k
  Refused (initializing k e) s = is_initialized (s.cache.swappable_blocks k) ≡ true
  Refused (extracting k) s =
      (0 < counts s k) ⊎ ((counts s k ≡ 0) × IsFull (s.cache.swappable_blocks k) s.cache.store)
  Refused flushing s = FillsDisk s.cache

  -- The external block that a user hands over is its own.
  abbrev pub Allowed : Operation → Session → Type 0
  Allowed (initializing k e) s = IsUnused e s.cache
  Allowed op s = Unit {0}

  -- An acquired block that has not been touched is as it was read.
  pub record Sound (s : Session) : Type 0 where
    pub consistent : Consistent s.cache
    pub saved :
        (j : ℕ)
        → 0 < counts s j
        → s.touched j ≡ false
        → Saved (s.cache.swappable_blocks j) s.cache.store

  abbrev pub Outcome : Operation → Session → Option Session → Type 0
  Outcome op s r =
      ((s' : Session) × (r ≡ some s') × Sound s' × Follows op s s') ⊎ ((r ≡ none) × Refused op s)
