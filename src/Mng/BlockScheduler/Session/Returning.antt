-- ===== src/Mng/BlockScheduler/Session/Returning.antt =====
-- `deinitialize`, `initialize`, `extract_external_block` and `flush` of
-- foxxll/mng/block_scheduler.hpp, as the user sees them.
use foxxll.Prelude.{ℕ, ◌+◌, ◌<◌, ◌≡◌, ◌≢◌, refl, ◌∙◌, ap, Option, none, some, inl, inr, arith}
use foxxll.Mng.BlockScheduler.{SwappableBlock}
use foxxll.Mng.BlockScheduler.Detach.{data_of}
use foxxll.Mng.BlockScheduler.Evictable.{Evictable}
use foxxll.Mng.BlockScheduler.Cache.{Cache}
use foxxll.Mng.BlockScheduler.Cache.Valid.{has_data, content, Consistent}
use foxxll.Mng.BlockScheduler.Cache.Initialized.{IsUnused, initialize-Initialized}
use foxxll.Mng.BlockScheduler.Cache.Extracts.{extract-Extracts}
use foxxll.Mng.BlockScheduler.Cache.Deinitializes.{deinitialize-Deinitializes}
use foxxll.Mng.BlockScheduler.Cache.Flushes.{Flushed, flush-Flushed}
use foxxll.Mng.BlockScheduler.Session.{
  deinitializing, initializing, extracting, flushing, Session, perform, Same, Sound, Outcome,
}
use foxxll.Mng.BlockScheduler.Session.Steps.{
  is_some, Quiet, idle-has_data, Quiet-Same, Quiet-Saved, Quiet-Sound,
}

module _ ⦃evictable : Evictable⦄ where
  open evictable use {Key, holds, pop, size}

  -- Block `k` is not acquired afterwards, and the others are left alone.
  idle-Sound :
      (k : ℕ) (s : Session) (c : Cache)
      → Sound s
      → Consistent c
      → ((j : ℕ) → j ≢ k → Quiet s.cache c j)
      → (c.swappable_blocks k).reference_count ≡ 0
      → Sound (record s { cache = c })
  idle-Sound k s c v w q r =
      Quiet-Sound k s (record s { cache = c }) v w q (λ j n f. f)
        (λ p. absurd (omega (arith, p, r)))

  pub others-Same :
      (k : ℕ) (s s' : Session)
      → Sound s
      → Consistent s'.cache
      → ((j : ℕ) → j ≢ k → Quiet s.cache s'.cache j)
      → (j : ℕ) → j ≢ k
      → Same s s' j
  others-Same k s s' v w q j n = Quiet-Same j s s' v.consistent w (q j n)

  -- The block and what is on disk for it are the same.
  pub still-Quiet :
      (j : ℕ) (c c' : Cache)
      → (c'.swappable_blocks j ≡ c.swappable_blocks j) × (content j c' ≡ content j c)
      → (0 < (c.swappable_blocks j).external_data
          → c'.store.disk (c.swappable_blocks j).external_data
            ≡ c.store.disk (c.swappable_blocks j).external_data)
      → Quiet c c' j
  still-Quiet j c c' (b, e) d = record {
    quiet_content = e;
    quiet_count = ap (λ (x : SwappableBlock). x.reference_count) b;
    quiet_block = λ p. b;
    quiet_disk = λ p. d;
  }

  -- What is left where a block that nobody has acquired has no data.
  idle_keeps :
      (k : ℕ) (c : Cache) (o : Option ℕ)
      → Consistent c
      → (c.swappable_blocks k).reference_count ≡ 0
      → content k c ≡ o
      → has_data (c.swappable_blocks k) ≡ is_some o
  idle_keeps k c o v r e = idle-has_data k c v r ∙ ap is_some e

  pub deinitializing-Outcome :
      (key : SwappableBlock → Key) (k : ℕ) (s : Session)
      → Sound s
      → Outcome (deinitializing k) s (perform key (deinitializing k) s)
  unfolding perform data_of
  deinitializing-Outcome key k s v = elim (deinitialize-Deinitializes k s.cache v.consistent) [
    | inr (a, e) ↦ rw e (inr (refl, ground (arith, a)))
    | inl (a, c, e, d) ↦
        let r : (c.swappable_blocks k).reference_count ≡ 0 =
          ap (λ (x : SwappableBlock). x.reference_count) d.fresh in
        let q = λ (j : ℕ) (n : j ≢ k).
          still-Quiet j s.cache c (d.others j n)
            (λ p. d.same_disk (s.cache.swappable_blocks j).external_data) in
        rw e (
          inl (
            record s { cache = c },
            refl,
            idle-Sound k s c v d.consistent q r,
            (
              r,
              ap has_data d.fresh,
              ap (λ (x : SwappableBlock). data_of x c.store) d.fresh,
              others-Same k s (record s { cache = c }) v d.consistent q,
            ),
          ))
  ]

  pub initializing-Outcome :
      (key : SwappableBlock → Key) (k e : ℕ) (s : Session)
      → Sound s
      → IsUnused e s.cache
      → Outcome (initializing k e) s (perform key (initializing k e) s)
  unfolding perform
  initializing-Outcome key k e s v u =
      elim (initialize-Initialized k e s.cache v.consistent (u.0)) [
        | inr (a, f) ↦ rw f (inr (refl, a))
        | inl (a, c, f, d) ↦
            let q = λ (j : ℕ) (n : j ≢ k).
              still-Quiet j s.cache c (d.others j n)
                (λ p. d.same_disk (s.cache.swappable_blocks j).external_data) in
            let r = d.idle in
            rw f (
              inl (
                record s { cache = c },
                refl,
                idle-Sound k s c v d.consistent q r,
                (
                  r,
                  idle_keeps k c (some (s.cache.store.disk e)) d.consistent r d.same_data,
                  d.same_data,
                  others-Same k s (record s { cache = c }) v d.consistent q,
                ),
              ))
      ]

  pub extracting-Outcome :
      (key : SwappableBlock → Key) (k : ℕ) (s : Session)
      → Sound s
      → Outcome (extracting k) s (perform key (extracting k) s)
  unfolding perform
  extracting-Outcome key k s v = elim (extract-Extracts k s.cache v.consistent) [
    | inr (inl (a, f)) ↦ rw f (inr (refl, inl (ground (arith, a))))
    | inr (inr (full, a, f)) ↦ rw f (inr (refl, inr (ground (arith, a), full)))
    | inl (a, e, c, f, d) ↦
        let q = λ (j : ℕ) (n : j ≢ k). still-Quiet j s.cache c (d.others j n) (d.other_disk j n) in
        rw f (
          inl (
            record s { cache = c },
            refl,
            idle-Sound k s c v d.consistent q d.idle,
            (
              d.idle,
              idle_keeps k c none d.consistent d.idle d.gone,
              d.gone,
              others-Same k s (record s { cache = c }) v d.consistent q,
            ),
          ))
  ]

  flush-Quiet : (j : ℕ) (c c' : Cache) → Flushed c c' → Quiet c c' j
  flush-Quiet j c c' f = record {
    quiet_content = f.same_content j;
    quiet_count = f.same_count j;
    quiet_block = f.acquired_same j;
    quiet_disk = f.acquired_disk j;
  }

  pub flushing-Outcome :
      (key : SwappableBlock → Key) (s : Session)
      → Sound s
      → Outcome flushing s (perform key flushing s)
  unfolding perform
  flushing-Outcome key s v =
      elim (flush-Flushed (size s.cache.evictable_blocks + 1) (pop s.cache.evictable_blocks) s.cache
        v.consistent refl (omega arith)) [
          | inr (e, full) ↦ rw e (inr (refl, full))
          | inl (c, e, f) ↦
              let q = λ (j : ℕ). flush-Quiet j s.cache c f in
              rw e (
                inl (
                  record s { cache = c },
                  refl,
                  record {
                    consistent = f.consistent;
                    saved =
                        λ j p t. Quiet-Saved j s.cache c v.consistent (q j) p (λ h. v.saved j h t);
                  },
                  λ j. Quiet-Same j s (record s { cache = c }) v.consistent f.consistent (q j),
                ))
        ]
