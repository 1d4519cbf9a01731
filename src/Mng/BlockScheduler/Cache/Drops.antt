-- ===== src/Mng/BlockScheduler/Cache/Drops.antt =====
-- A swappable block loses its internal block for good (`return_free_internal_block` after
-- `detach_internal_block`, foxxll/mng/block_scheduler.hpp).
use foxxll.Prelude.{
  ℕ, ◌<◌, ◌≡◌, ◌≢◌, refl, sym, ◌∙◌, true, false, none, some, inl, inr, ◌⊎◌, arith, update_ne, List,
  ◌∷◌,
}
use foxxll.Mng.BlockScheduler.{SwappableBlock, is_evictable}
use foxxll.Mng.BlockScheduler.Detach.{Detached, IsFull}
use foxxll.Mng.BlockScheduler.Evictable.{Evictable}
use foxxll.Mng.BlockScheduler.Cache.{
  Cache, set_block, return_free_internal_block, detach_and_return,
}
use foxxll.Mng.BlockScheduler.Cache.Base.{Base, Fits, Base-return}
use foxxll.Mng.BlockScheduler.Cache.Valid.{content, CacheBase, QueuedBut, Consistent, Loose}
use foxxll.Mng.BlockScheduler.Cache.Evicts.{detach-Detaches}

-- Block `k` keeps its internal and its external block.
pub same-Fits :
    (k : ℕ) (b : SwappableBlock) (free : List ℕ) (new : ℕ) (blocks : ℕ → SwappableBlock)
    (new_external : ℕ)
    → Base free new blocks new_external
    → b.internal_data ≡ (blocks k).internal_data
    → b.external_data ≡ (blocks k).external_data
    → 0 < b.internal_data
    → Fits k b free new blocks new_external
same-Fits k b free new blocks new_external v ei ex p = record {
  held_old = rw ei (v.held_old k);
  held_not_free = λ h. rw ei (v.held_not_free k (omega (arith, h, ei)));
  held_once = λ j n h s. n (sym (v.held_once k j (omega (arith, h, ei)) (sym ei ∙ s)));
  external_old = rw ex (v.external_old k);
  external_once = λ j n h s. n (sym (v.external_once k j (omega (arith, h, ex)) (sym ex ∙ s)));
  dirty_internal = λ d. p;
  acquired_internal = λ d. p;
}

-- Block `k` has neither.
pub empty-Fits :
    (k : ℕ) (b : SwappableBlock) (free : List ℕ) (new : ℕ) (blocks : ℕ → SwappableBlock)
    (new_external : ℕ)
    → Base free new blocks new_external
    → b.internal_data ≡ 0
    → b.external_data ≡ 0
    → b.dirty ≡ false
    → b.reference_count ≡ 0
    → Fits k b free new blocks new_external
empty-Fits k b free new blocks new_external v ei ex d r = record {
  held_old = omega (arith, ei, v.positive);
  held_not_free = λ h. absurd (omega (arith, h, ei));
  held_once = λ j n h. absurd (omega (arith, h, ei));
  external_old = omega (arith, ex, v.positive_external);
  external_once = λ j n h. absurd (omega (arith, h, ex));
  dirty_internal = λ y. absurd (cc (y, d));
  acquired_internal = λ h. absurd (omega (arith, h, r));
}

module _ ⦃evictable : Evictable⦄ where
  -- Block `k` of `c` has been detached, and its internal block is free.
  pub record Dropped (k : ℕ) (c c' : Cache) : Type 0 where
    pub consistent : Consistent c'
    pub others :
        (j : ℕ)
        → j ≢ k
        → (c'.swappable_blocks j ≡ c.swappable_blocks j) × (content j c' ≡ content j c)
    pub detached : Detached (c.swappable_blocks k) c.store (c'.swappable_blocks k) c'.store
    pub other_disk :
        (j : ℕ)
        → j ≢ k
        → 0 < (c.swappable_blocks j).external_data
        → c'.store.disk (c.swappable_blocks j).external_data
          ≡ c.store.disk (c.swappable_blocks j).external_data
    pub same_queue : c'.evictable_blocks ≡ c.evictable_blocks
    pub freed :
        (free : List ℕ) × (c'.free_internal_blocks ≡ (c.swappable_blocks k).internal_data ∷ free)

  pub returned-Consistent :
      (i : ℕ) (c : Cache) → Consistent c → Loose i c → Consistent (return_free_internal_block i c)
  unfolding return_free_internal_block
  returned-Consistent i c v l = record {
    base =
        Base-return c.free_internal_blocks c.next_internal c.swappable_blocks c.store.next_external
          v.base i l.positive l.old l.not_free l.not_held;
    queued = record { valid = v.queued.valid; exact = v.queued.exact; clean = v.queued.clean };
  }

  pub drop-Dropped :
      (k : ℕ) (c : Cache)
      → CacheBase c
      → QueuedBut k c
      → is_evictable (c.swappable_blocks k) ≡ true
      → ((c' : Cache) × (detach_and_return k c ≡ some c') × Dropped k c c')
        ⊎ ((detach_and_return k c ≡ none) × IsFull (c.swappable_blocks k) c.store)
  unfolding detach_and_return return_free_internal_block
  drop-Dropped k c v q e = elim (detach-Detaches k c v q e) [
    | inr (none_now, full) ↦ inr (rw none_now refl, full)
    | inl (c', d) ↦ inl (
      return_free_internal_block (c.swappable_blocks k).internal_data c',
      rw d.run refl,
      record {
        consistent =
            returned-Consistent (c.swappable_blocks k).internal_data c' d.consistent d.loose;
        others = d.others;
        detached = d.detached;
        other_disk = d.other_disk;
        same_queue = d.same_queue;
        freed = (c'.free_internal_blocks, refl);
      },
    )
  ]

  -- Nothing is written where the block is not dirty.
  pub drop-clean :
      (k : ℕ) (c : Cache)
      → CacheBase c
      → QueuedBut k c
      → is_evictable (c.swappable_blocks k) ≡ true
      → (c.swappable_blocks k).dirty ≡ false
      → (c' : Cache) × (detach_and_return k c ≡ some c') × Dropped k c c'
  drop-clean k c v q e d = elim (drop-Dropped k c v q e) [
    | inl r ↦ r
    | inr (_, full) ↦ absurd (cc (d, full.0))
  ]

  -- Block `k` is replaced, and stays out of the container.
  pub set_block-QueuedBut :
      (k : ℕ) (b : SwappableBlock) (c : Cache) → QueuedBut k c → QueuedBut k (set_block k b c)
  unfolding set_block
  set_block-QueuedBut k b c q = record {
    valid = q.valid;
    absent = q.absent;
    exact = λ j n. rw (update_ne k b c.swappable_blocks j n) (q.exact j n);
    clean = λ j n. rw (update_ne k b c.swappable_blocks j n) (q.clean j n);
  }
