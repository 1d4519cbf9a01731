-- ===== src/Mng/BlockScheduler/Cache/Acquires.antt =====
-- `acquire` of the caching algorithms of foxxll/mng/block_scheduler.hpp.
use foxxll.Prelude.{
  ℕ, ◌+◌, ◌<◌, ◌≡◌, refl, sym, ◌∙◌, ap, Bool, true, false, not, ◌&&◌, some, ◌==◌, inl, inr, arith,
  update, update_self, update_ne, Bool-cases,
}
use foxxll.Mng.BlockScheduler.{
  SwappableBlock, Store, is_internal, is_external, is_acquired, is_initialized,
  attach_internal_block,
}
use foxxll.Mng.BlockScheduler.Detach.{data_of}
use foxxll.Mng.BlockScheduler.Evictable.{Evictable}
use foxxll.Mng.BlockScheduler.Cache.{Cache, acquire_internal, load, acquire}
use foxxll.Mng.BlockScheduler.Cache.Valid.{has_data, QueuedBut, Consistent, Got}
use foxxll.Mng.BlockScheduler.Cache.Takes.{get_free_internal_block-Gets}
use foxxll.Mng.BlockScheduler.Cache.Attaches.{
  read_sync-run, Acquired, Acquires, acquire_at-run, held-Acquired, attached-Acquired,
}

module _ ⦃evictable : Evictable⦄ where
  open evictable use {IsValid, holds, erase, erase-IsValid, holds-erase}

  attach-run :
      (i : ℕ) (b : SwappableBlock)
      → b.internal_data ≡ 0
      → attach_internal_block i b ≡ some (record b { internal_data = i })
  unfolding attach_internal_block
  attach-run i b z = rw z refl

  read_data :
      (i : ℕ) (b : SwappableBlock) (s : Store)
      → 0 < i
      → b.internal_data ≡ 0
      → b.dirty ≡ false
      → 0 < b.external_data
      → data_of
          (record b { internal_data = i; dirty = false; reference_count = b.reference_count + 1 })
          (record s { memory = update i (s.disk b.external_data) s.memory })
        ≡ data_of b s
  unfolding data_of
  read_data i b s p z d x =
      let h : (i == 0) ≡ false = ground (arith, p) in
      let e : (b.external_data == 0) ≡ false = ground (arith, x) in
      rw (h, z, e, d) (ap some (update_self i (s.disk b.external_data) s.memory))

  load-Acquires :
      (read : Bool) (k : ℕ) (uninitialized : Bool) (c : Cache) (i : ℕ) (c' : Cache)
      → Got i c c'
      → (c.swappable_blocks k).internal_data ≡ 0
      → (is_initialized (c.swappable_blocks k) && not uninitialized) ≡ read
      → (c'' : Cache) × (load read k (record (c'.swappable_blocks k) { internal_data = i }) c'
          ≡ some (i, c''))
        × Acquired k uninitialized c i c''
  unfolding load
  load-Acquires true k uninitialized c i c' g z e =
      let same = g.not_internal_same k z in
      let b = c'.swappable_blocks k in
      let z' : b.internal_data ≡ 0 = ap (λ (x : SwappableBlock). x.internal_data) same ∙ z in
      let x : 0 < b.external_data =
        ground (arith, e, z, ap (λ (y : SwappableBlock). y.external_data) same) in
      let d : b.dirty ≡ false = elim (Bool-cases b.dirty) [
        | inl y ↦ absurd (omega (arith, g.consistent.base.dirty_internal k y, z'))
        | inr f ↦ f
      ] in
      let h : is_internal (record b { internal_data = i }) ≡ true =
        ground (arith, g.loose.positive) in
      let s : Store = record c'.store {
        memory = update i (c'.store.disk b.external_data) c'.store.memory;
      } in
      (
        _,
        rw (read_sync-run (record b { internal_data = i }) c'.store h x) (
            acquire_at-run k (record b { internal_data = i; dirty = false })
              (record c' { store = s }) h),
        attached-Acquired k uninitialized c i c'
            (record b { internal_data = i; dirty = false; reference_count = b.reference_count + 1 })
            s g z
            (record {
              memory = λ j n. update_ne i (c'.store.disk b.external_data) c'.store.memory j n;
              disk = λ y. refl;
              next = refl;
            })
            (ap (λ (y : SwappableBlock). y.external_data) (sym same)) refl
            (ap (λ (y : SwappableBlock). y.reference_count + 1) same)
            (λ o. read_data i b c'.store g.loose.positive z' d x ∙ g.same_content k)
            (λ u _ _. update_self i (c'.store.disk b.external_data) c'.store.memory)
            (ground (arith, d, ap has_data same)),
      )
  load-Acquires false k uninitialized c i c' g z e =
      let same = g.not_internal_same k z in
      let b = c'.swappable_blocks k in
      let h : is_internal (record b { internal_data = i }) ≡ true =
        ground (arith, g.loose.positive) in
      (
        _,
        acquire_at-run k (record b { internal_data = i }) c' h,
        attached-Acquired k uninitialized c i c'
            (record b { internal_data = i; reference_count = b.reference_count + 1 }) c'.store g z
            (record { memory = λ j n. refl; disk = λ y. refl; next = refl })
            (ap (λ (y : SwappableBlock). y.external_data) (sym same)) refl
            (ap (λ (y : SwappableBlock). y.reference_count + 1) same)
            (λ o. absurd (ground (arith, e, o.0, o.1)))
            (λ u y p. absurd (
              ground (
                arith,
                e,
                u,
                y,
                p,
                ap (λ (x : SwappableBlock). x.external_data) same,
                ap (λ (x : SwappableBlock). x.dirty) same,
              )))
            (ap has_data same),
      )

  pub erased-QueuedBut :
      (k : ℕ) (c : Cache)
      → Consistent c
      → is_acquired (c.swappable_blocks k) ≡ false
      → QueuedBut k (record c { evictable_blocks = erase k c.evictable_blocks })
  erased-QueuedBut k c v a = record {
    valid = erase-IsValid k c.evictable_blocks v.queued.valid;
    absent = ground (arith, holds-erase k k c.evictable_blocks v.queued.valid);
    exact = λ j n.
        ground (arith, holds-erase j k c.evictable_blocks v.queued.valid, v.queued.exact j, n);
    clean = λ j n. v.queued.clean j;
  }

  pub acquired-QueuedBut :
      (k : ℕ) (c : Cache) → Consistent c → is_acquired (c.swappable_blocks k) ≡ true → QueuedBut k c
  acquired-QueuedBut k c v a = record {
    valid = v.queued.valid;
    absent = ground (arith, v.queued.exact k, a);
    exact = λ j n. v.queued.exact j;
    clean = λ j n. v.queued.clean j;
  }

  acquire_internal-Acquires :
      (k : ℕ) (uninitialized : Bool) (c : Cache)
      → Consistent c
      → is_internal (c.swappable_blocks k) ≡ true
      → Acquires k uninitialized c (acquire_internal k (c.swappable_blocks k) c)
  unfolding acquire_internal
  acquire_internal-Acquires k uninitialized c v h =
      elim (Bool-cases (is_acquired (c.swappable_blocks k))) [
        | inl y ↦ rw y (
            inl (
              _,
              _,
              acquire_at-run k (c.swappable_blocks k) c h,
              held-Acquired k uninitialized c c v.base (acquired-QueuedBut k c v y) h refl refl refl
                  refl,
            ))
        | inr f ↦ rw f (
            inl (
              _,
              _,
              acquire_at-run k (c.swappable_blocks k)
                  (record c { evictable_blocks = erase k c.evictable_blocks }) h,
              held-Acquired k uninitialized c
                  (record c { evictable_blocks = erase k c.evictable_blocks }) v.base
                  (erased-QueuedBut k c v f) h refl refl refl refl,
            ))
      ]

  -- In a consistent scheduler, acquire gives the block's internal block and adds one reference; the
  -- scheduler is consistent then, and the block has its data if it was in memory, or if it was
  -- initialized and its data were asked for. All other blocks have the data and references that they
  -- had, and those acquired are the same. It fails only if the block is not in memory, no internal block
  -- is free or left to allocate, and either no block is evictable or the one to be evicted is dirty, has
  -- no external block, and the block manager has none for it.
  pub acquire-Acquires :
      (k : ℕ) (uninitialized : Bool) (c : Cache)
      → Consistent c
      → Acquires k uninitialized c (acquire k uninitialized c)
  unfolding acquire
  acquire-Acquires k uninitialized c v = elim (Bool-cases (is_internal (c.swappable_blocks k))) [
    | inl h ↦ rw h (acquire_internal-Acquires k uninitialized c v h)
    | inr f ↦
        let z : (c.swappable_blocks k).internal_data ≡ 0 = ground (arith, f) in
        elim (get_free_internal_block-Gets c v) [
          | inl (i, c', e, g) ↦
              let (c'', l, a) =
                load-Acquires (is_external (c.swappable_blocks k) && not uninitialized) k
                  uninitialized c i c' g z (rw f refl) in
              inl (
                i,
                c'',
                rw
                    (
                      f,
                      e,
                      attach-run i (c'.swappable_blocks k) (
                          ap (λ (x : SwappableBlock). x.internal_data) (g.not_internal_same k z)
                          ∙ z),
                    )
                    l,
                a,
              )
          | inr (e, x) ↦ inr (rw (f, e) refl, z, x)
        ]
  ]
