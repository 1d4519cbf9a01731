-- ===== src/Mng/BlockScheduler/Switch.antt =====
-- `init` of the algorithms of foxxll/mng/block_scheduler.hpp: a new algorithm takes over the evictable
-- blocks of the old one, when the scheduler is switched to it.
use foxxll.Prelude.{
  ℕ, zero, suc, ◌+◌, ◌<◌, ◌≡◌, refl, ap, Option, none, some, ◌==◌, if◌then◌else◌, inl, inr, arith,
  eq-or-ne, ◌>>=◌,
}
use foxxll.Mng.BlockScheduler.Evictable.{Evictable}
use foxxll.Mng.BlockScheduler.Cache.{Cache}
use foxxll.Mng.BlockScheduler.Cache.Valid.{Consistent}

module _ (old new : Evictable) where
  -- The blocks are inserted in the order in which the old algorithm gives them; `none` is the end of
  -- the fuel.
  unfoldable pub take_over :
      (ℕ → new.Key) → ℕ → Option (ℕ × old.Queue) → new.Queue → Option new.Queue
  take_over key zero next q = none
  take_over key (suc n) none q = some q
  take_over key (suc n) (some (k, r)) q = take_over key n (old.pop r) (new.insert (key k) k q)

  -- The scheduler with the new algorithm.
  abbrev pub moved : new.Queue → Cache ⦃evictable = old⦄ → Cache ⦃evictable = new⦄
  moved q c = record {
    remaining_internal_blocks = c.remaining_internal_blocks;
    next_internal = c.next_internal;
    free_internal_blocks = c.free_internal_blocks;
    swappable_blocks = c.swappable_blocks;
    store = c.store;
    evictable_blocks = q;
  }

  unfoldable pub switch_to :
      (ℕ → new.Key) → new.Queue → Cache ⦃evictable = old⦄ → Option (Cache ⦃evictable = new⦄)
  switch_to key q c = do
    q' ← take_over key (old.size c.evictable_blocks + 1) (old.pop c.evictable_blocks) q
    some (moved q' c)

  record TakenOver (r : old.Queue) (q q' : new.Queue) : Type 0 where
    valid : new.IsValid q'
    both : (j : ℕ) → new.holds j q' ≡ (if old.holds j r == 1 then 1 else new.holds j q)

  take_over-TakenOver :
      (key : ℕ → new.Key) (n : ℕ) (next : Option (ℕ × old.Queue)) (r : old.Queue) (q : new.Queue)
      → old.IsValid r
      → new.IsValid q
      → old.pop r ≡ next
      → old.size r < n
      → (q' : new.Queue) × (take_over key n next q ≡ some q') × TakenOver r q q'
  unfolding take_over
  take_over-TakenOver key zero next r q v w e l = absurd (omega (arith, l))
  take_over-TakenOver key (suc n) none r q v w e l =
      (q, refl, record { valid = w; both = λ j. rw (old.pop_none j r v e) refl })
  take_over-TakenOver key (suc n) (some (k, r')) r q v w e l =
      let (q', run, t) =
        take_over-TakenOver key n (old.pop r') r' (new.insert (key k) k q)
          (old.pop-IsValid k r r' v e) (new.insert-IsValid (key k) k q w) refl
          (omega (arith, old.size-pop k r r' v e, l)) in
      (
        q',
        run,
        record {
          valid = t.valid;
          both = λ j. elim (eq-or-ne j k) [
            | inl s ↦ ground (
              arith,
              s,
              t.both k,
              t.both j,
              ap (λ (x : ℕ). new.holds x q') s,
              old.holds-pop k k r r' v e,
              new.holds-insert (key k) k k q w,
              old.pop_held k r r' v e,
              ap (λ (x : ℕ). old.holds x r) s,
            )
            | inr d ↦
                ground
                  (arith, d, t.both j, old.holds-pop j k r r' v e, new.holds-insert (key k) j k q w)
          ];
        },
      )

  -- The scheduler after the switch.
  pub record Switched (c : Cache ⦃evictable = old⦄) (c' : Cache ⦃evictable = new⦄) : Type 0 where
    pub consistent : Consistent ⦃evictable = new⦄ c'
    pub same_blocks : c'.swappable_blocks ≡ c.swappable_blocks
    pub same_store : c'.store ≡ c.store
    pub same_free : c'.free_internal_blocks ≡ c.free_internal_blocks

  -- A switch from one caching algorithm to another, whatever their containers are, ends and keeps the
  -- scheduler consistent, if it was so and the new algorithm holds no block yet: all blocks, what is in
  -- memory and on disk and the free list are the same, and the new algorithm's container holds the
  -- evictable blocks, each once.
  pub switch_to-Switched :
      (key : ℕ → new.Key) (q : new.Queue) (c : Cache ⦃evictable = old⦄)
      → Consistent ⦃evictable = old⦄ c
      → new.IsValid q
      → ((j : ℕ) → new.holds j q ≡ 0)
      → (c' : Cache ⦃evictable = new⦄) × (switch_to key q c ≡ some c') × Switched c c'
  unfolding switch_to
  switch_to-Switched key q c v w z =
      let (q', run, t) =
        take_over-TakenOver key (old.size c.evictable_blocks + 1) (old.pop c.evictable_blocks)
          c.evictable_blocks q v.queued.valid w refl (omega arith) in
      (
        moved q' c,
        rw run refl,
        record {
          consistent = record {
            base = v.base;
            queued = record {
              valid = t.valid;
              exact = λ j. ground (arith, t.both j, v.queued.exact j, z j);
              clean = v.queued.clean;
            };
          };
          same_blocks = refl;
          same_store = refl;
          same_free = refl;
        },
      )
