-- ===== src/Mng/BlockScheduler/Cache/Keeps.antt =====
-- The branches of `release` of the caching algorithms of foxxll/mng/block_scheduler.hpp.
use foxxll.Prelude.{
  ℕ, ◌+◌, ◌-◌, ◌<◌, ◌≡◌, ◌≢◌, refl, ◌∙◌, ap, Bool, true, false, not, ◌||◌, Option, none, some, ◌==◌,
  if◌then◌else◌, inl, inr, ◌⊎◌, arith, update, update_self, update_ne, List, ◌∷◌,
}
use foxxll.Mng.BlockScheduler.{SwappableBlock, Store, is_acquired, make_dirty_if, release_block}
use foxxll.Mng.BlockScheduler.Detach.{data_of}
use foxxll.Mng.BlockScheduler.Evictable.{Evictable}
use foxxll.Mng.BlockScheduler.Cache.{Cache, set_block, detach_and_return, let_go, release}
use foxxll.Mng.BlockScheduler.Cache.Base.{Fits, update-each, Base-update}
use foxxll.Mng.BlockScheduler.Cache.Valid.{
  evictable_count, Clean, Saved, has_data, content, CacheBase, QueuedBut, Consistent,
}
use foxxll.Mng.BlockScheduler.Cache.Attaches.{put-Consistent}
use foxxll.Mng.BlockScheduler.Cache.Acquires.{acquired-QueuedBut}
use foxxll.Mng.BlockScheduler.Cache.Drops.{same-Fits, set_block-QueuedBut}

-- Block `b` after a release.
abbrev pub released : Bool → SwappableBlock → SwappableBlock
released dirty b = record b { dirty = dirty || b.dirty; reference_count = b.reference_count - 1 }

-- A block that is released with no change is on disk, if it is there at all, as it is in memory.
abbrev pub IsUnchanged : SwappableBlock → Store → Type 0
IsUnchanged b s = 0 < b.external_data → s.memory b.internal_data ≡ s.disk b.external_data

make_dirty_if-run :
    (dirty : Bool) (b : SwappableBlock)
    → is_acquired b ≡ true
    → make_dirty_if dirty b ≡ some (record b { dirty = dirty || b.dirty })
unfolding make_dirty_if
make_dirty_if-run dirty b a = rw a refl

release_block-run :
    (b : SwappableBlock)
    → is_acquired b ≡ true
    → release_block b ≡ some (record b { reference_count = b.reference_count - 1 })
unfolding release_block
release_block-run b a = rw a refl

module _ ⦃evictable : Evictable⦄ where
  open evictable use {Key, IsValid, holds, insert, insert-IsValid, holds-insert}

  pub record Released (k : ℕ) (dirty : Bool) (c c' : Cache) : Type 0 where
    pub consistent : Consistent c'
    pub counted :
        (c'.swappable_blocks k).reference_count + 1 ≡ (c.swappable_blocks k).reference_count
    pub kept :
        (1 < (c.swappable_blocks k).reference_count)
          ⊎ (((dirty || (c.swappable_blocks k).dirty) ≡ true)
              ⊎ (0 < (c.swappable_blocks k).external_data))
        → content k c' ≡ content k c
    pub dropped :
        (c.swappable_blocks k).reference_count ≡ 1
        → (dirty || (c.swappable_blocks k).dirty) ≡ false
        → (c.swappable_blocks k).external_data ≡ 0
        → (content k c' ≡ none)
          × ((free : List ℕ) × (c'.free_internal_blocks
                ≡ (c.swappable_blocks k).internal_data ∷ free))
    pub now_data : has_data (c'.swappable_blocks k) ≡ (dirty || has_data (c.swappable_blocks k))
    pub saved :
        1 < (c.swappable_blocks k).reference_count
        → Saved (c.swappable_blocks k) c.store
        → Saved (c'.swappable_blocks k) c'.store
    pub other_disk :
        (j : ℕ)
        → j ≢ k
        → 0 < (c.swappable_blocks j).external_data
        → c'.store.disk (c.swappable_blocks j).external_data
          ≡ c.store.disk (c.swappable_blocks j).external_data
    pub others :
        (j : ℕ)
        → j ≢ k
        → (c'.swappable_blocks j ≡ c.swappable_blocks j) × (content j c' ≡ content j c)

  abbrev pub Releases : ℕ → Bool → Cache → Option Cache → Type 0
  Releases k dirty c r =
      ((is_acquired (c.swappable_blocks k) ≡ true)
        × (c' : Cache) × (r ≡ some c')
        × Released k dirty c c')
      ⊎ ((is_acquired (c.swappable_blocks k) ≡ false) × (r ≡ none))

  pub let_go_drop :
      (key : Key) (k : ℕ) (b : SwappableBlock) (c : Cache)
      → b.dirty ≡ false
      → (b.external_data == 0) ≡ true
      → let_go key k b c ≡ detach_and_return k c
  unfolding let_go
  let_go_drop key k b c d z = rw (d, z) refl

  pub release-run :
      (key : SwappableBlock → Key) (k : ℕ) (dirty : Bool) (c : Cache)
      → is_acquired (c.swappable_blocks k) ≡ true
      → release key k dirty c ≡ (
          let b = released dirty (c.swappable_blocks k) in
          if not (is_acquired b)
          then let_go (key b) k b (set_block k b c)
          else some (set_block k b c))
  unfolding release
  release-run key k dirty c a =
      let b = c.swappable_blocks k in
      rw (make_dirty_if-run dirty b a, release_block-run (record b { dirty = dirty || b.dirty }) a)
        refl

  module _ (k : ℕ) (dirty : Bool) (c : Cache) (v : Consistent c)
      (a : is_acquired (c.swappable_blocks k) ≡ true) where
    pub released_internal : 0 < (c.swappable_blocks k).internal_data
    released_internal = v.base.acquired_internal k (ground (arith, a))

    pub released-Fits :
        Fits k
          (released dirty (c.swappable_blocks k))
          c.free_internal_blocks
          c.next_internal
          c.swappable_blocks
          c.store.next_external
    released-Fits =
        same-Fits k (released dirty (c.swappable_blocks k)) c.free_internal_blocks c.next_internal
          c.swappable_blocks c.store.next_external v.base refl refl released_internal

    pub released-Base : CacheBase (set_block k (released dirty (c.swappable_blocks k)) c)
    unfolding set_block
    released-Base =
        Base-update c.free_internal_blocks c.next_internal c.swappable_blocks c.store.next_external
          v.base k (released dirty (c.swappable_blocks k)) released-Fits

    pub released-QueuedBut : QueuedBut k (set_block k (released dirty (c.swappable_blocks k)) c)
    released-QueuedBut =
        set_block-QueuedBut k (released dirty (c.swappable_blocks k)) c (acquired-QueuedBut k c v a)

    pub released_data : data_of (released dirty (c.swappable_blocks k)) c.store ≡ content k c
    unfolding data_of
    released_data = let p = released_internal in ground (arith, p)

    -- What the three branches of `release` have in common.
    pub keeps-Released :
        (c' : Cache)
        → Consistent c'
        → c'.swappable_blocks ≡ update k (released dirty (c.swappable_blocks k)) c.swappable_blocks
        → c'.store ≡ c.store
        → (1 < (c.swappable_blocks k).reference_count)
          ⊎ (((dirty || (c.swappable_blocks k).dirty) ≡ true)
              ⊎ (0 < (c.swappable_blocks k).external_data))
        → Released k dirty c c'
    keeps-Released c' v' eb es o =
        let b : SwappableBlock = released dirty (c.swappable_blocks k) in
        let self : c'.swappable_blocks k ≡ b =
          ap (λ (f : ℕ → SwappableBlock). f k) eb ∙ update_self k b c.swappable_blocks in
        let other = λ (j : ℕ) (n : j ≢ k).
          ap (λ (f : ℕ → SwappableBlock). f j) eb ∙ update_ne k b c.swappable_blocks j n in
        record {
          consistent = v';
          counted = ground (arith, ap (λ (x : SwappableBlock). x.reference_count) self, a);
          kept = λ h.
              ap (λ (x : SwappableBlock). data_of x c'.store) self
              ∙ ap (data_of b) es
              ∙ released_data;
          dropped = λ r d x. absurd (elim o [
            | inl p ↦ omega (arith, p, r)
            | inr (inl y) ↦ cc (y, d)
            | inr (inr p) ↦ omega (arith, p, x)
          ]);
          now_data = ground (arith, ap has_data self);
          saved = λ p m. rw (self, es) (λ y x. m (ground (arith, y)) x);
          other_disk = λ j n p. rw es refl;
          others = λ j n. (
            other j n,
            ap (λ (x : SwappableBlock). data_of x c'.store) (other j n)
                ∙ ap (data_of (c.swappable_blocks j)) es,
          );
        }

    pub still-Released :
        1 < (c.swappable_blocks k).reference_count
        → Released k dirty c (set_block k (released dirty (c.swappable_blocks k)) c)
    unfolding set_block
    still-Released p =
        keeps-Released _
          (put-Consistent k (released dirty (c.swappable_blocks k)) c v.base
            (acquired-QueuedBut k c v a) (ground (arith, p)) released-Fits)
          refl refl (inl p)

    pub inserted-Consistent :
        (key : Key)
        → (c.swappable_blocks k).reference_count ≡ 1
        → ((dirty || (c.swappable_blocks k).dirty) ≡ false
            → (0 < (c.swappable_blocks k).external_data)
              × IsUnchanged (c.swappable_blocks k) c.store)
        → Consistent (record c {
          swappable_blocks = update k (released dirty (c.swappable_blocks k)) c.swappable_blocks;
          evictable_blocks = insert key k c.evictable_blocks;
        })
    unfolding set_block
    inserted-Consistent key r u =
        let p = released_internal in
        let b : SwappableBlock = released dirty (c.swappable_blocks k) in
        let q = acquired-QueuedBut k c v a in
        let h = λ (j : ℕ). holds-insert key j k c.evictable_blocks q.valid in
        record {
          base = released-Base;
          queued = record {
            valid = insert-IsValid key k c.evictable_blocks q.valid;
            exact =
                update-each (λ j x. holds j (insert key k c.evictable_blocks) ≡ evictable_count x) k
                  b c.swappable_blocks (ground (arith, h k, p, r))
                  (λ j n. ground (arith, h j, n, q.exact j n));
            clean =
                update-each (λ j x. Clean x c.store) k b c.swappable_blocks
                  (λ y z. let (x, s) = u z in (x, s x)) q.clean;
          };
        }
