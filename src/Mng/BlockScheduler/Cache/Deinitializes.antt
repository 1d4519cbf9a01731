-- ===== src/Mng/BlockScheduler/Cache/Deinitializes.antt =====
-- `deinitialize` of the caching algorithms of foxxll/mng/block_scheduler.hpp.
use foxxll.Prelude.{
  ℕ, ◌<◌, ◌≡◌, ◌≢◌, refl, sym, ◌∙◌, ap, true, false, Option, none, some, ◌==◌, if◌then◌else◌, inl,
  inr, ◌⊎◌, arith, update, update_self, update_ne, Bool-cases, ◌∷◌,
}
use foxxll.Mng.BlockScheduler.{
  SwappableBlock, Store, uninitialized_block, is_internal, has_external_block, is_acquired,
  free_external_block, deinitialize_block,
}
use foxxll.Mng.BlockScheduler.Detach.{data_of}
use foxxll.Mng.BlockScheduler.Evictable.{Evictable}
use foxxll.Mng.BlockScheduler.Cache.{
  Cache, set_block, erase_evictable, return_if, return_free_internal_block, deinitialize,
}
use foxxll.Mng.BlockScheduler.Cache.Base.{update-each}
use foxxll.Mng.BlockScheduler.Cache.Valid.{content, QueuedBut, Consistent, Loose}
use foxxll.Mng.BlockScheduler.Cache.Attaches.{put-Consistent}
use foxxll.Mng.BlockScheduler.Cache.Acquires.{erased-QueuedBut}
use foxxll.Mng.BlockScheduler.Cache.Drops.{empty-Fits, returned-Consistent}

-- What freeing the external block leaves alone.
record FreedExternal (b : SwappableBlock) (s s' : Store) : Type 0 where
  same_memory : s'.memory ≡ s.memory
  same_disk : s'.disk ≡ s.disk
  same_next : s'.next_external ≡ s.next_external
  deleted_now :
      s'.deleted ≡ (if has_external_block b then b.external_data ∷ s.deleted else s.deleted)

free-FreedExternal : (b : SwappableBlock) (s : Store) → FreedExternal b s (free_external_block b s)
unfolding free_external_block
free-FreedExternal b s = elim (Bool-cases (b.external_data == 0)) [
  | inl y ↦
      rw y
        (record { same_memory = refl; same_disk = refl; same_next = refl; deleted_now = rw y refl })
  | inr f ↦
      rw f
        (record { same_memory = refl; same_disk = refl; same_next = refl; deleted_now = rw f refl })
]

module _ ⦃evictable : Evictable⦄ where
  open evictable use {Queue, IsValid, holds, erase}

  -- The block has neither an internal nor an external block any more; both are free.
  pub record Deinitialized (k : ℕ) (c c' : Cache) : Type 0 where
    pub consistent : Consistent c'
    pub fresh : c'.swappable_blocks k ≡ uninitialized_block
    pub freed_internal :
        0 < (c.swappable_blocks k).internal_data
        → c'.free_internal_blocks ≡ (c.swappable_blocks k).internal_data ∷ c.free_internal_blocks
    pub freed_external : c'.store.deleted ≡ (
        if has_external_block (c.swappable_blocks k)
        then (c.swappable_blocks k).external_data ∷ c.store.deleted
        else c.store.deleted)
    pub same_disk : (x : ℕ) → c'.store.disk x ≡ c.store.disk x
    pub others :
        (j : ℕ)
        → j ≢ k
        → (c'.swappable_blocks j ≡ c.swappable_blocks j) × (content j c' ≡ content j c)

  module _ (k : ℕ) (c : Cache) (q : Queue) (s : Store) (v : Consistent c)
      (but : QueuedBut k (record c { evictable_blocks = q }))
      (a : is_acquired (c.swappable_blocks k) ≡ false)
      (f : FreedExternal (c.swappable_blocks k) c.store s) where
    abbrev emptied : Cache
    emptied = record c {
      evictable_blocks = q;
      store = s;
      swappable_blocks = update k uninitialized_block c.swappable_blocks;
    }

    emptied-Consistent : Consistent emptied
    unfolding set_block
    emptied-Consistent =
        put-Consistent k uninitialized_block (record c { evictable_blocks = q; store = s })
          (rw f.same_next v.base)
          (record {
            valid = but.valid;
            absent = but.absent;
            exact = but.exact;
            clean = rw (f.same_memory, f.same_disk) but.clean;
          })
          refl
          (empty-Fits k uninitialized_block c.free_internal_blocks c.next_internal
            c.swappable_blocks s.next_external (rw f.same_next v.base) refl refl refl refl)

    emptied-Loose :
        0 < (c.swappable_blocks k).internal_data
        → Loose (c.swappable_blocks k).internal_data emptied
    emptied-Loose p = record {
      positive = p;
      old = v.base.held_old k;
      not_free = v.base.held_not_free k p;
      not_held =
          update-each (λ j b. b.internal_data ≢ (c.swappable_blocks k).internal_data) k
            uninitialized_block c.swappable_blocks (λ e. omega (arith, e, p))
            (λ j n e. n (sym (v.base.held_once k j p (sym e))));
    }

    emptied-others :
        (j : ℕ)
        → j ≢ k
        → (emptied.swappable_blocks j ≡ c.swappable_blocks j) × (content j emptied ≡ content j c)
    unfolding data_of
    emptied-others j n = (
      update_ne k uninitialized_block c.swappable_blocks j n,
      ap (λ (x : SwappableBlock). data_of x s)
            (update_ne k uninitialized_block c.swappable_blocks j n)
          ∙ rw (f.same_memory, f.same_disk) refl,
    )

    emptied-Deinitialized :
        Deinitialized k c (return_if (c.swappable_blocks k).internal_data emptied)
    unfolding return_if return_free_internal_block
    emptied-Deinitialized = elim (Bool-cases ((c.swappable_blocks k).internal_data == 0)) [
      | inl y ↦ rw y (record {
        consistent = emptied-Consistent;
        fresh = update_self k uninitialized_block c.swappable_blocks;
        freed_internal = λ p. absurd (ground (arith, p, y));
        freed_external = f.deleted_now;
        same_disk = λ x. rw f.same_disk refl;
        others = emptied-others;
      })
      | inr n ↦
          let p : 0 < (c.swappable_blocks k).internal_data = ground (arith, n) in
          rw n (record {
            consistent =
                returned-Consistent (c.swappable_blocks k).internal_data emptied emptied-Consistent
                  (emptied-Loose p);
            fresh = update_self k uninitialized_block c.swappable_blocks;
            freed_internal = λ _. refl;
            freed_external = f.deleted_now;
            same_disk = λ x. rw f.same_disk refl;
            others = emptied-others;
          })
    ]

  deinitialize_block-run :
      (b : SwappableBlock) (s : Store)
      → is_acquired b ≡ false
      → deinitialize_block b s
        ≡ some (b.internal_data, uninitialized_block, free_external_block b s)
  unfolding deinitialize_block
  deinitialize_block-run b s a = let r : b.reference_count ≡ 0 = ground (arith, a) in rw r refl

  refused :
      (k : ℕ) (c : Cache) → is_acquired (c.swappable_blocks k) ≡ true → deinitialize k c ≡ none
  unfolding deinitialize deinitialize_block
  refused k c a = rw a refl

  abbrev pub Deinitializes : ℕ → Cache → Option Cache → Type 0
  Deinitializes k c r =
      ((is_acquired (c.swappable_blocks k) ≡ false)
        × (c' : Cache) × (r ≡ some c')
        × Deinitialized k c c')
      ⊎ ((is_acquired (c.swappable_blocks k) ≡ true) × (r ≡ none))

  pub deinitialize-Deinitializes :
      (k : ℕ) (c : Cache) → Consistent c → Deinitializes k c (deinitialize k c)
  unfolding deinitialize erase_evictable set_block
  deinitialize-Deinitializes k c v = elim (Bool-cases (is_acquired (c.swappable_blocks k))) [
    | inl a ↦ inr (a, refused k c a)
    | inr a ↦
        let f = free-FreedExternal (c.swappable_blocks k) c.store in
        let run = deinitialize_block-run (c.swappable_blocks k) c.store a in
        elim (Bool-cases (is_internal (c.swappable_blocks k))) [
          | inl y ↦ inl (
            a,
            _,
            rw (run, a, y) refl,
            emptied-Deinitialized k c (erase k c.evictable_blocks)
                (free_external_block (c.swappable_blocks k) c.store) v (erased-QueuedBut k c v a) a
                f,
          )
          | inr n ↦ inl (
            a,
            _,
            rw (run, a, n) refl,
            emptied-Deinitialized k c c.evictable_blocks
                (free_external_block (c.swappable_blocks k) c.store) v
                (record {
                  valid = v.queued.valid;
                  absent = v.queued.exact k ∙ rw (a, n) refl;
                  exact = λ j m. v.queued.exact j;
                  clean = λ j m. v.queued.clean j;
                })
                a f,
          )
        ]
  ]
