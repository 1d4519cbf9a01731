-- ===== src/Mng/BlockScheduler/Cache/Initialized.antt =====
-- `deinitialize`, `initialize` and `extract_external_block` of the caching algorithms of
-- foxxll/mng/block_scheduler.hpp.
use foxxll.Prelude.{
  ℕ, ◌<◌, ◌≡◌, ◌≢◌, refl, sym, ◌∙◌, ap, true, false, none, some, ltb, ◌==◌, inl, inr, ◌⊎◌, arith,
  update_self, update_ne, Bool-cases,
}
use foxxll.Mng.BlockScheduler.{SwappableBlock, is_acquired, is_initialized, initialize_block}
use foxxll.Mng.BlockScheduler.Detach.{data_of}
use foxxll.Mng.BlockScheduler.Evictable.{Evictable}
use foxxll.Mng.BlockScheduler.Cache.{Cache, set_block, initialize}
use foxxll.Mng.BlockScheduler.Cache.Base.{count}
use foxxll.Mng.BlockScheduler.Cache.Valid.{content, Consistent}
use foxxll.Mng.BlockScheduler.Cache.Attaches.{put-Consistent}

module _ ⦃evictable : Evictable⦄ where
  open evictable use {IsValid, holds, erase}

  -- A block that is in memory nowhere has no data that only the memory has, and nobody uses it.
  pub not_internal :
      (k : ℕ) (c : Cache)
      → Consistent c
      → (c.swappable_blocks k).internal_data ≡ 0
      → ((c.swappable_blocks k).dirty ≡ false) × ((c.swappable_blocks k).reference_count ≡ 0)
  not_internal k c v z = (
    elim (Bool-cases (c.swappable_blocks k).dirty) [
      | inl y ↦ absurd (omega (arith, v.base.dirty_internal k y, z))
      | inr f ↦ f
    ],
    elim (Bool-cases (ltb 0 (c.swappable_blocks k).reference_count)) [
      | inl y ↦ absurd (omega (arith, v.base.acquired_internal k (ground (arith, y)), z))
      | inr f ↦ ground (arith, f)
    ],
  )

  -- Block `k`, not in memory, gets the external block `e`.
  pub external-Consistent :
      (k e : ℕ) (c : Cache)
      → Consistent c
      → (c.swappable_blocks k).internal_data ≡ 0
      → e < c.store.next_external
      → ((j : ℕ) → j ≢ k → 0 < e → e ≢ (c.swappable_blocks j).external_data)
      → Consistent (set_block k (record (c.swappable_blocks k) { external_data = e }) c)
  external-Consistent k e c v z l o =
      let (d, r) = not_internal k c v z in
      let b : SwappableBlock = record (c.swappable_blocks k) { external_data = e } in
      put-Consistent k b c v.base
        (record {
          valid = v.queued.valid;
          absent = ground (arith, v.queued.exact k, z);
          exact = λ j n. v.queued.exact j;
          clean = λ j n. v.queued.clean j;
        })
        (rw z (elim (Bool-cases (is_acquired (c.swappable_blocks k))) [
          | inl y ↦ rw y refl
          | inr f ↦ rw f refl
        ]))
        (record {
          held_old = v.base.held_old k;
          held_not_free = v.base.held_not_free k;
          held_once = λ j n h. absurd (omega (arith, h, z));
          external_old = l;
          external_once = o;
          dirty_internal = λ y. absurd (cc (y, d));
          acquired_internal = λ h. absurd (omega (arith, h, r));
        })

  -- `initialize`: the block has the data of the external block.
  pub record Initialized (k e : ℕ) (c c' : Cache) : Type 0 where
    pub consistent : Consistent c'
    pub same_data : content k c' ≡ some (c.store.disk e)
    pub idle : (c'.swappable_blocks k).reference_count ≡ 0
    pub same_disk : (x : ℕ) → c'.store.disk x ≡ c.store.disk x
    pub others :
        (j : ℕ)
        → j ≢ k
        → (c'.swappable_blocks j ≡ c.swappable_blocks j) × (content j c' ≡ content j c)

  -- An external block that no swappable block has.
  abbrev pub IsUnheld : ℕ → Cache → Type 0
  IsUnheld e c =
      (0 < e) × (e < c.store.next_external) × ((j : ℕ) → (c.swappable_blocks j).external_data ≢ e)

  -- An external block of the caller, who has not deleted it.
  abbrev pub IsUnused : ℕ → Cache → Type 0
  IsUnused e c = IsUnheld e c × (count e c.store.deleted ≡ 0)

  external-Initialized :
      (k e : ℕ) (c : Cache)
      → Consistent c
      → (c.swappable_blocks k).internal_data ≡ 0
      → IsUnheld e c
      → Initialized k e c (set_block k (record (c.swappable_blocks k) { external_data = e }) c)
  unfolding set_block data_of
  external-Initialized k e c v z (p, l, o) =
      let (d, r) = not_internal k c v z in
      let b : SwappableBlock = record (c.swappable_blocks k) { external_data = e } in
      let h : (e == 0) ≡ false = ground (arith, p) in
      record {
        consistent = external-Consistent k e c v z l (λ j n _ s. o j (sym s));
        same_data =
            ap (λ (x : SwappableBlock). data_of x c.store) (update_self k b c.swappable_blocks)
            ∙ rw (z, h, d) refl;
        idle = rw (update_self k b c.swappable_blocks) r;
        same_disk = λ x. refl;
        others = λ j n. (
          update_ne k b c.swappable_blocks j n,
          ap (λ (x : SwappableBlock). data_of x c.store) (update_ne k b c.swappable_blocks j n),
        );
      }

  -- `initialize`.
  pub initialize-Initialized :
      (k e : ℕ) (c : Cache)
      → Consistent c
      → IsUnheld e c
      → ((is_initialized (c.swappable_blocks k) ≡ false)
          × (c' : Cache) × (initialize k e c ≡ some c')
          × Initialized k e c c')
        ⊎ ((is_initialized (c.swappable_blocks k) ≡ true) × (initialize k e c ≡ none))
  unfolding initialize initialize_block
  initialize-Initialized k e c v u = elim (Bool-cases (is_initialized (c.swappable_blocks k))) [
    | inl y ↦ inr (y, rw y refl)
    | inr f ↦
        let z : (c.swappable_blocks k).internal_data ≡ 0 = ground (arith, f) in
        inl (
          f,
          set_block k (record (c.swappable_blocks k) { external_data = e }) c,
          rw f refl,
          external-Initialized k e c v z u,
        )
  ]
