-- ===== src/Mng/BlockScheduler/Cache/Releases.antt =====
-- `release` of the caching algorithms of foxxll/mng/block_scheduler.hpp.
use foxxll.Prelude.{
  ℕ, ◌-◌, ◌<◌, ◌≡◌, refl, ◌∙◌, subst, ap, Bool, true, false, ◌||◌, some, ltb, ◌==◌, inl, inr, arith,
  update_self, update_ne, Bool-cases, ◌∷◌,
}
use foxxll.Mng.BlockScheduler.{SwappableBlock, is_acquired, make_dirty_if, release_block}
use foxxll.Mng.BlockScheduler.Detach.{data_of}
use foxxll.Mng.BlockScheduler.Evictable.{Evictable}
use foxxll.Mng.BlockScheduler.Cache.{Cache, set_block, detach_and_return, let_go, release}
use foxxll.Mng.BlockScheduler.Cache.Valid.{Consistent}
use foxxll.Mng.BlockScheduler.Cache.Drops.{drop-clean}
use foxxll.Mng.BlockScheduler.Cache.Keeps.{
  released, IsUnchanged, Released, Releases, let_go_drop, release-run, released_internal,
  released-Base, released-QueuedBut, keeps-Released, still-Released, inserted-Consistent,
}

module _ ⦃evictable : Evictable⦄ where
  open evictable use {Key, IsValid, holds, insert, insert-IsValid, holds-insert}

  module _ (k : ℕ) (dirty : Bool) (c : Cache) (v : Consistent c)
      (a : is_acquired (c.swappable_blocks k) ≡ true) where
    -- The block is not initialized, and is given up.
    dropped-Released :
        (c.swappable_blocks k).reference_count ≡ 1
        → (dirty || (c.swappable_blocks k).dirty) ≡ false
        → (c.swappable_blocks k).external_data ≡ 0
        → (c' : Cache) × (detach_and_return k
              (set_block k (released dirty (c.swappable_blocks k)) c)
            ≡ some c')
          × Released k dirty c c'
    unfolding set_block data_of
    dropped-Released r d x =
        let b : SwappableBlock = released dirty (c.swappable_blocks k) in
        let c1 : Cache = set_block k b c in
        let self : c1.swappable_blocks k ≡ b = update_self k b c.swappable_blocks in
        let p = released_internal k dirty c v a in
        let (c', run, w) =
          drop-clean k c1 (released-Base k dirty c v a) (released-QueuedBut k dirty c v a)
            (rw self (ground (arith, p, r))) (rw self d) in
        let (same, _) = w.detached.clean (rw self d) in
        let ex : (c'.swappable_blocks k).external_data ≡ 0 =
          same ∙ ap (λ (y : SwappableBlock). y.external_data) self ∙ x in
        let in_memory = w.detached.not_internal in
        (
          c',
          run,
          record {
            consistent = w.consistent;
            counted = ground (
              arith,
              w.detached.same_count ∙ ap (λ (y : SwappableBlock). y.reference_count) self,
              r,
            );
            kept = λ o. absurd (elim o [
              | inl g ↦ omega (arith, g, r)
              | inr (inl y) ↦ cc (y, d)
              | inr (inr g) ↦ omega (arith, g, x)
            ]);
            dropped = λ _ _ _. (
              ground (arith, in_memory, ex),
              (
                w.freed.0,
                w.freed.1 ∙ ap (λ (y : SwappableBlock). y.internal_data ∷ w.freed.0) self,
              ),
            );
            now_data = ground (arith, w.detached.not_dirty, ex, d, x);
            saved = λ p. absurd (omega (arith, p, r));
            other_disk = λ j n p.
                subst
                  (λ (y : SwappableBlock).
                    c'.store.disk y.external_data ≡ c.store.disk y.external_data)
                  (update_ne k b c.swappable_blocks j n)
                  (w.other_disk j n (rw (update_ne k b c.swappable_blocks j n) p));
            others = λ j n. (
              (w.others j n).0 ∙ update_ne k b c.swappable_blocks j n,
              (w.others j n).1
                  ∙ ap (λ (y : SwappableBlock). data_of y c.store)
                      (update_ne k b c.swappable_blocks j n),
            );
          },
        )

    let_go-Released :
        (key : Key)
        → (c.swappable_blocks k).reference_count ≡ 1
        → ((dirty || (c.swappable_blocks k).dirty) ≡ false
            → IsUnchanged (c.swappable_blocks k) c.store)
        → (c' : Cache) × (let_go key k
              (released dirty (c.swappable_blocks k))
              (set_block k (released dirty (c.swappable_blocks k)) c)
            ≡ some c')
          × Released k dirty c c'
    unfolding let_go set_block
    let_go-Released key r u = elim (Bool-cases (dirty || (c.swappable_blocks k).dirty)) [
      | inl y ↦ (
        _,
        rw y refl,
        keeps-Released k dirty c v a _
            (inserted-Consistent k dirty c v a key r (λ d. absurd (cc (y, d)))) refl refl
            (inr (inl y)),
      )
      | inr f ↦ elim (Bool-cases ((c.swappable_blocks k).external_data == 0)) [
        | inl z ↦
            let (c', run, w) = dropped-Released r f (ground (arith, z)) in
            (
              c',
              let_go_drop key k (released dirty (c.swappable_blocks k))
                    (set_block k (released dirty (c.swappable_blocks k)) c) f z
                  ∙ run,
              w,
            )
        | inr z ↦
            let p : 0 < (c.swappable_blocks k).external_data = ground (arith, z) in
            (
              _,
              rw (f, z) refl,
              keeps-Released k dirty c v a _
                  (inserted-Consistent k dirty c v a key r (λ d. (p, u d))) refl refl (inr (inr p)),
            )
      ]
    ]

  -- In a consistent scheduler, release of an acquired block takes one reference and leaves the scheduler
  -- consistent and all other blocks and their data the same, provided that a block which is neither
  -- dirty nor released as such is as on disk. The block keeps its data if it is still acquired, or is
  -- dirty, or has an external block; else it has none, and its internal block is on the free list.
  -- Release of a block that is not acquired fails.
  pub release-Releases :
      (key : SwappableBlock → Key) (k : ℕ) (dirty : Bool) (c : Cache)
      → Consistent c
      → (0 < (c.swappable_blocks k).reference_count
          → (dirty || (c.swappable_blocks k).dirty) ≡ false
          → IsUnchanged (c.swappable_blocks k) c.store)
      → Releases k dirty c (release key k dirty c)
  unfolding release make_dirty_if release_block
  release-Releases key k dirty c v u = elim (Bool-cases (is_acquired (c.swappable_blocks k))) [
    | inr f ↦ inr (f, rw f refl)
    | inl a ↦ elim (Bool-cases (ltb 0 ((c.swappable_blocks k).reference_count - 1))) [
      | inl y ↦ inl (
        a,
        _,
        release-run key k dirty c a ∙ rw y refl,
        still-Released k dirty c v a (ground (arith, y)),
      )
      | inr f ↦
          let (c', run, w) =
            let_go-Released k dirty c v a (key (released dirty (c.swappable_blocks k)))
              (ground (arith, a, f)) (u (ground (arith, a))) in
          inl (a, c', release-run key k dirty c a ∙ rw f run, w)
    ]
  ]
