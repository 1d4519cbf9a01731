-- ===== src/Mng/BlockScheduler/Cache/Valid.antt =====
-- The invariant of the caching algorithms of foxxll/mng/block_scheduler.hpp.
use foxxll.Prelude.{ℕ, ◌<◌, refl, arith, ◌≡◌, ◌≢◌, Bool, true, false, ◌||◌, Option, if◌then◌else◌}
use foxxll.Mng.BlockScheduler.{SwappableBlock, Store, is_evictable, has_external_block}
use foxxll.Mng.BlockScheduler.Detach.{data_of}
use foxxll.Mng.BlockScheduler.Evictable.{Evictable}
use foxxll.Mng.BlockScheduler.Cache.{Cache, create}
use foxxll.Mng.BlockScheduler.Cache.Base.{count, Base}

-- How often a block belongs into the container of the evictable blocks.
abbrev pub evictable_count : SwappableBlock → ℕ
evictable_count b = if is_evictable b then 1 else 0

-- Whether a block has data beyond its internal block, or will have them when it loses that.
abbrev pub has_data : SwappableBlock → Bool
has_data b = b.dirty || has_external_block b

-- A block that has not been changed since it was read or written.
abbrev pub Saved : SwappableBlock → Store → Type 0
Saved b s =
    b.dirty ≡ false → 0 < b.external_data → s.memory b.internal_data ≡ s.disk b.external_data

-- An evictable block that is not dirty is on disk as it is in memory.
abbrev pub Clean : SwappableBlock → Store → Type 0
Clean b s =
    is_evictable b ≡ true
    → b.dirty ≡ false
    → (0 < b.external_data) × (s.memory b.internal_data ≡ s.disk b.external_data)

module _ ⦃evictable : Evictable⦄ where
  open evictable use {Queue, IsValid, holds}

  -- The data of a swappable block, as its user sees it.
  abbrev pub content : ℕ → Cache → Option ℕ
  content j c = data_of (c.swappable_blocks j) c.store

  abbrev pub CacheBase : Cache → Type 0
  CacheBase c = Base c.free_internal_blocks c.next_internal c.swappable_blocks c.store.next_external

  -- The container holds the evictable blocks, each once.
  pub record Queued (c : Cache) : Type 0 where
    pub valid : IsValid c.evictable_blocks
    pub exact : (j : ℕ) → holds j c.evictable_blocks ≡ evictable_count (c.swappable_blocks j)
    pub clean : (j : ℕ) → Clean (c.swappable_blocks j) c.store

  -- The same, but for block `k`, which the container does not hold.
  pub record QueuedBut (k : ℕ) (c : Cache) : Type 0 where
    pub valid : IsValid c.evictable_blocks
    pub absent : holds k c.evictable_blocks ≡ 0
    pub exact :
        (j : ℕ) → j ≢ k → holds j c.evictable_blocks ≡ evictable_count (c.swappable_blocks j)
    pub clean : (j : ℕ) → j ≢ k → Clean (c.swappable_blocks j) c.store

  pub record Consistent (c : Cache) : Type 0 where
    pub base : CacheBase c
    pub queued : Queued c

  -- An internal block in the hand of the algorithm.
  pub record Loose (i : ℕ) (c : Cache) : Type 0 where
    pub positive : 0 < i
    pub old : i < c.next_internal
    pub not_free : count i c.free_internal_blocks ≡ 0
    pub not_held : (j : ℕ) → (c.swappable_blocks j).internal_data ≢ i

  -- What an algorithm that looks for an internal block leaves: every block has its data, blocks
  -- without an internal block are as they were, and no reference is counted otherwise.
  pub record Got (i : ℕ) (c c' : Cache) : Type 0 where
    pub consistent : Consistent c'
    pub loose : Loose i c'
    pub same_content : (j : ℕ) → content j c' ≡ content j c
    pub not_internal_same :
        (j : ℕ)
        → (c.swappable_blocks j).internal_data ≡ 0
        → c'.swappable_blocks j ≡ c.swappable_blocks j
    pub same_count :
        (j : ℕ) → (c'.swappable_blocks j).reference_count ≡ (c.swappable_blocks j).reference_count
    pub acquired_same :
        (j : ℕ)
        → 0 < (c.swappable_blocks j).reference_count
        → c'.swappable_blocks j ≡ c.swappable_blocks j
    pub acquired_disk :
        (j : ℕ)
        → 0 < (c.swappable_blocks j).reference_count
        → 0 < (c.swappable_blocks j).external_data
        → c'.store.disk (c.swappable_blocks j).external_data
          ≡ c.store.disk (c.swappable_blocks j).external_data
    pub same_memory : (j : ℕ) → c'.store.memory j ≡ c.store.memory j

  -- A new scheduler.
  pub create-Consistent :
      (n : ℕ) (s : Store) (q : Queue)
      → 0 < s.next_external
      → IsValid q
      → ((j : ℕ) → holds j q ≡ 0)
      → Consistent (create n s q)
  unfolding create
  create-Consistent n s q p v h = record {
    base = record {
      positive = omega arith;
      positive_external = p;
      free_once = λ i. omega arith;
      free_positive = refl;
      free_old = λ i l. refl;
      held_old = λ j. omega arith;
      held_not_free = λ j l. refl;
      held_once = λ j k l. absurd (omega (arith, l));
      external_old = λ j. p;
      external_once = λ j k l. absurd (omega (arith, l));
      dirty_internal = λ j y. cc;
      acquired_internal = λ j l. absurd (omega (arith, l));
    };
    queued = record { valid = v; exact = h; clean = λ j y. cc };
  }
