-- ===== src/Mng/BlockScheduler/Lfd/Algorithm.antt =====
-- The methods of `block_scheduler_algorithm_offline_lfd` (foxxll/mng/block_scheduler.hpp).
use foxxll.Prelude.{
  ℕ, ◌<◌, ◌≡◌, refl, Bool, false, ◌||◌, List, [], ◌∷◌, Option, none, some, inl, inr, ◌⊎◌, ◌>>=◌,
}
use foxxll.Mng.BlockScheduler.{SwappableBlock, is_acquired}
use foxxll.Mng.BlockScheduler.Evictable.{Evictable}
use foxxll.Mng.BlockScheduler.Cache
use foxxll.Mng.BlockScheduler.Cache.{Cache}
use foxxll.Mng.BlockScheduler.Cache.Valid.{Consistent}
use foxxll.Mng.BlockScheduler.Cache.Keeps.{IsUnchanged, Released}
use foxxll.Mng.BlockScheduler.Cache.Releases.{release-Releases}
use foxxll.Mng.BlockScheduler.Switch.{switch_to, Switched, switch_to-Switched}
use foxxll.Mng.BlockScheduler.Lru.{lru_evictable, no_key, empty_lru, empty_lru-IsValid}
use foxxll.Mng.BlockScheduler.Lfd.{Use, PredictionElement, predict, priority}
use foxxll.Mng.BlockScheduler.Lfd.Container.{lfd_evictable, empty_lfd, empty_lfd-IsValid}
use foxxll.Mng.BlockScheduler.Lfd.NextUse.{uses_after, predict-uses_after}

abbrev pub lfd_key : Use → SwappableBlock → lfd_evictable.Key
unfolding lfd_evictable
lfd_key next b = priority b next

pub record Lfd : Type 0 where
  pub cache : Cache ⦃evictable = lfd_evictable⦄
  pub next_use : List Use

-- The algorithm that the scheduler has after a release.
pub data Algorithm : Type 0 where
  online : Cache ⦃evictable = lru_evictable⦄ → Algorithm
  offline : Lfd → Algorithm

-- `init`: the priorities come from the prediction sequence, and the evictable blocks from the algorithm
-- that the scheduler has.
unfoldable pub create_offline :
    (old : Evictable) → List PredictionElement → Cache ⦃evictable = old⦄ → Option Lfd
create_offline old sequence c = do
  let (next, uses) = predict sequence
  c' ← switch_to old lfd_evictable (λ k. lfd_key (next k) (c.swappable_blocks k)) empty_lfd c
  some (record { cache = c'; next_use = uses })

unfoldable pub acquire_offline : ℕ → Bool → Lfd → Option (ℕ × Lfd)
acquire_offline k uninitialized s = do
  (iblock, c) ← Cache.acquire ⦃evictable = lfd_evictable⦄ k uninitialized s.cache
  some (iblock, record s { cache = c })

-- The prediction sequence has ended: the scheduler is switched to the online algorithm.
unfoldable pub release_online : ℕ → Bool → Lfd → Option Algorithm
release_online k dirty s = do
  c ←
      switch_to lfd_evictable lru_evictable (λ j. no_key (s.cache.swappable_blocks j)) empty_lru
        s.cache
  c' ← Cache.release ⦃evictable = lru_evictable⦄ no_key k dirty c
  some (online c')

unfoldable pub release_next : List Use → ℕ → Bool → Lfd → Option Algorithm
release_next [] k dirty s = release_online k dirty s
release_next (next ∷ uses) k dirty s = do
  c ← Cache.release ⦃evictable = lfd_evictable⦄ (lfd_key next) k dirty s.cache
  some (offline (record { cache = c; next_use = uses }))

unfoldable pub release_offline : ℕ → Bool → Lfd → Option Algorithm
release_offline k dirty s = release_next s.next_use k dirty s

unfoldable pub deinitialize_offline : ℕ → Lfd → Option Lfd
deinitialize_offline k s = do
  c ← Cache.deinitialize ⦃evictable = lfd_evictable⦄ k s.cache
  some (record s { cache = c })

unfoldable pub initialize_offline : ℕ → ℕ → Lfd → Option Lfd
initialize_offline k eblock s = do
  c ← Cache.initialize ⦃evictable = lfd_evictable⦄ k eblock s.cache
  some (record s { cache = c })

unfoldable pub extract_offline : ℕ → Lfd → Option (ℕ × Lfd)
extract_offline k s = do
  (eblock, c) ← Cache.extract ⦃evictable = lfd_evictable⦄ k s.cache
  some (eblock, record s { cache = c })

-- What a release does, as far as the sequence tells the next use of the block, and after its end.
abbrev pub ReleasesOffline : ℕ → Bool → Lfd → Option Algorithm → Type 0
ReleasesOffline k dirty s r =
    ((is_acquired (s.cache.swappable_blocks k) ≡ false) × (r ≡ none))
    ⊎ (((next : Use) × (uses : List Use) × (c : Cache ⦃evictable = lfd_evictable⦄) × (s.next_use
            ≡ next ∷ uses)
          × (r ≡ some (offline (record { cache = c; next_use = uses })))
          × Released ⦃evictable = lfd_evictable⦄ k dirty s.cache c)
        ⊎ ((c : Cache ⦃evictable = lru_evictable⦄) × (c' : Cache ⦃evictable = lru_evictable⦄)
            × (s.next_use ≡ [])
            × (r ≡ some (online c'))
            × Switched lfd_evictable lru_evictable s.cache c
            × Released ⦃evictable = lru_evictable⦄ k dirty c c'))

release_next-ReleasesOffline :
    (next : List Use) (k : ℕ) (dirty : Bool) (s : Lfd)
    → s.next_use ≡ next
    → Consistent ⦃evictable = lfd_evictable⦄ s.cache
    → (0 < (s.cache.swappable_blocks k).reference_count
        → (dirty || (s.cache.swappable_blocks k).dirty) ≡ false
        → IsUnchanged (s.cache.swappable_blocks k) s.cache.store)
    → ReleasesOffline k dirty s (release_next next k dirty s)
unfolding release_next release_online
release_next-ReleasesOffline [] k dirty s e v u =
    let (valid, nothing) = empty_lru-IsValid in
    let (c, run, w) =
      switch_to-Switched lfd_evictable lru_evictable (λ j. no_key (s.cache.swappable_blocks j))
        empty_lru s.cache v valid nothing in
    rw run
      (elim (release-Releases ⦃evictable = lru_evictable⦄ no_key k dirty c w.consistent
        (rw (w.same_blocks, w.same_store) u)) [
          | inl (a, c', run', d) ↦ rw run' (inr (inr (c, c', e, refl, w, d)))
          | inr (a, run') ↦ rw run' (inl (rw w.same_blocks at a, refl))
        ])
release_next-ReleasesOffline (next ∷ uses) k dirty s e v u =
    elim (release-Releases ⦃evictable = lfd_evictable⦄ (lfd_key next) k dirty s.cache v u) [
      | inl (a, c, run, d) ↦ rw run (inr (inl (next, uses, c, e, refl, d)))
      | inr (a, run) ↦ rw run (inl (a, refl))
    ]

-- In a consistent scheduler with the offline algorithm, a release takes the next use of the block from
-- the predicted ones, in their order, and does what release of any caching algorithm does, the algorithm
-- being offline still. When there are no predicted uses left it is switched to the online algorithm
-- with the same blocks, data and evictable blocks, and that releases the block. Both ask that a block
-- that is neither dirty nor released as such be as on disk. Release of a block that is not acquired
-- fails.
pub release_offline-ReleasesOffline :
    (k : ℕ) (dirty : Bool) (s : Lfd)
    → Consistent ⦃evictable = lfd_evictable⦄ s.cache
    → (0 < (s.cache.swappable_blocks k).reference_count
        → (dirty || (s.cache.swappable_blocks k).dirty) ≡ false
        → IsUnchanged (s.cache.swappable_blocks k) s.cache.store)
    → ReleasesOffline k dirty s (release_offline k dirty s)
unfolding release_offline
release_offline-ReleasesOffline k dirty s v u =
    release_next-ReleasesOffline s.next_use k dirty s refl v u

-- The offline algorithm is made from any caching algorithm that is consistent: the scheduler stays so
-- and keeps its blocks, their data and its evictable blocks, and the algorithm has, for each release of
-- the prediction sequence, the first operation on the released block after it that is no release.
pub create_offline-Switched :
    (old : Evictable) (sequence : List PredictionElement) (c : Cache ⦃evictable = old⦄)
    → Consistent ⦃evictable = old⦄ c
    → (s : Lfd) × (create_offline old sequence c ≡ some s)
      × Switched old lfd_evictable c s.cache
      × (s.next_use ≡ uses_after sequence)
unfolding create_offline
create_offline-Switched old sequence c v =
    let (valid, nothing) = empty_lfd-IsValid in
    let (c', run, w) =
      switch_to-Switched old lfd_evictable
        (λ k. lfd_key ((predict sequence).0 k) (c.swappable_blocks k)) empty_lfd c v valid
        nothing in
    (
      record { cache = c'; next_use = (predict sequence).1 },
      rw run refl,
      w,
      (predict-uses_after sequence).1,
    )
