-- ===== src/Mng/BlockScheduler/Session/Acquiring.antt =====
-- `acquire` of foxxll/mng/block_scheduler.hpp, and writing into an acquired block, as the user sees
-- them.
use foxxll.Prelude.{
  ℕ, ◌<◌, ◌≡◌, ◌≢◌, refl, ◌∙◌, ap, Bool, true, false, none, some, ltb, inl, inr, arith, update,
  update_self, update_ne, Bool-cases,
}
use foxxll.Mng.BlockScheduler.{SwappableBlock, is_internal, is_external, is_initialized}
use foxxll.Mng.BlockScheduler.Detach.{data_of}
use foxxll.Mng.BlockScheduler.Evictable.{Evictable}
use foxxll.Mng.BlockScheduler.Cache.{Cache}
use foxxll.Mng.BlockScheduler.Cache.Valid.{Saved, content, Consistent}
use foxxll.Mng.BlockScheduler.Cache.Attaches.{Acquired}
use foxxll.Mng.BlockScheduler.Cache.Acquires.{acquire-Acquires}
use foxxll.Mng.BlockScheduler.Cache.Initialized.{not_internal}
use foxxll.Mng.BlockScheduler.Session.{
  acquiring, writing, Session, write_block, perform, counts, Follows, Sound, Outcome,
}
use foxxll.Mng.BlockScheduler.Session.Steps.{Quiet, Quiet-Same, Quiet-Sound}

module _ ⦃evictable : Evictable⦄ where
  open evictable use {Key, holds, pop, size}

  Acquired-Quiet :
      (k j : ℕ) (u : Bool) (c c' : Cache) (i : ℕ) → Acquired k u c i c' → j ≢ k → Quiet c c' j
  Acquired-Quiet k j u c c' i a n = record {
    quiet_content = a.other_contents j n;
    quiet_count = a.other_counts j n;
    quiet_block = a.acquired_stay j n;
    quiet_disk = a.acquired_disk j;
  }

  -- Blocks that have data and are not in memory are on disk.
  initialized_of :
      (k : ℕ) (c : Cache) → content k c ≢ none → is_initialized (c.swappable_blocks k) ≡ true
  unfolding data_of
  initialized_of k c n = elim (Bool-cases (is_internal (c.swappable_blocks k))) [
    | inl y ↦ rw y refl
    | inr f ↦ elim (Bool-cases (is_external (c.swappable_blocks k))) [
      | inl y ↦ rw (f, y) refl
      | inr e ↦ absurd (n (rw (f, e) refl))
    ]
  ]

  acquire-Follows :
      (k : ℕ) (u : Bool) (s : Session) (i : ℕ) (c : Cache) (t : ℕ → Bool)
      → Sound s
      → Acquired k u s.cache i c
      → Follows (acquiring k u) s (record { cache = c; touched = t })
  acquire-Follows k u s i c t v a = (
    a.counted,
    a.same_data,
    (λ o. a.kept (elim o [
      | inl p ↦ let h = v.consistent.base.acquired_internal k p in inl (ground (arith, h))
      | inr (f, n) ↦ inr (initialized_of k s.cache n, f)
    ])),
    λ j n.
        Quiet-Same j s (record { cache = c; touched = t }) v.consistent a.consistent
          (Acquired-Quiet k j u s.cache c i a n),
  )

  touched-Saved :
      (k : ℕ) (s : Session)
      → Sound s
      → s.touched k ≡ false
      → is_internal (s.cache.swappable_blocks k) ≡ true
      → Saved (s.cache.swappable_blocks k) s.cache.store
  touched-Saved k s v f y d x = elim (Bool-cases (ltb 0 (counts s k))) [
    | inl a ↦ v.saved k (ground (arith, a)) f d x
    | inr a ↦ (v.consistent.queued.clean k (rw (a, y) refl) d).1
  ]

  pub acquiring-Outcome :
      (key : SwappableBlock → Key) (k : ℕ) (u : Bool) (s : Session)
      → Sound s
      → Outcome (acquiring k u) s (perform key (acquiring k u) s)
  unfolding perform
  acquiring-Outcome key k true s v = elim (acquire-Acquires k true s.cache v.consistent) [
    | inl (i, c, e, a) ↦ rw e (
        inl (
          _,
          refl,
          Quiet-Sound k s (record { cache = c; touched = update k true s.touched }) v a.consistent
              (λ j n. Acquired-Quiet k j true s.cache c i a n)
              (λ j n f. rw (update_ne k true s.touched j n) at f)
              (λ p f. absurd (cc (f, update_self k true s.touched))),
          acquire-Follows k true s i c (update k true s.touched) v a,
        ))
    | inr (e, z, x) ↦ rw e (inr (refl, ((not_internal k s.cache v.consistent z).1, x)))
  ]
  acquiring-Outcome key k false s v = elim (acquire-Acquires k false s.cache v.consistent) [
    | inl (i, c, e, a) ↦ rw e (
        inl (
          _,
          refl,
          Quiet-Sound k s (record { cache = c; touched = s.touched }) v a.consistent
              (λ j n. Acquired-Quiet k j false s.cache c i a n) (λ j n f. f)
              (λ p f. a.saved refl (touched-Saved k s v f)),
          acquire-Follows k false s i c s.touched v a,
        ))
    | inr (e, z, x) ↦ rw e (inr (refl, ((not_internal k s.cache v.consistent z).1, x)))
  ]

  -- `write_block`.
  module _ (k v : ℕ) (s : Session) (w : Sound s) (a : 0 < counts s k) where
    written : Session
    written = record { cache = write_block k v s.cache; touched = update k true s.touched }

    elsewhere :
        (j : ℕ)
        → j ≢ k
        → 0 < (s.cache.swappable_blocks j).internal_data
        → (s.cache.swappable_blocks j).internal_data ≢ (s.cache.swappable_blocks k).internal_data
    elsewhere j n p e = n (w.consistent.base.held_once j k p e)

    written-Quiet : (j : ℕ) → j ≢ k → Quiet s.cache (write_block k v s.cache) j
    unfolding write_block data_of
    written-Quiet j n = record {
      quiet_content = elim (Bool-cases (is_internal (s.cache.swappable_blocks j))) [
        | inl y ↦ rw y (
            ap some (
              update_ne (s.cache.swappable_blocks k).internal_data v s.cache.store.memory
                (s.cache.swappable_blocks j).internal_data (elsewhere j n (ground (arith, y)))))
        | inr f ↦ rw f refl
      ];
      quiet_count = refl;
      quiet_block = λ p. refl;
      quiet_disk = λ p x. refl;
    }

    written-Consistent : Consistent (write_block k v s.cache)
    unfolding write_block
    written-Consistent = record {
      base = w.consistent.base;
      queued = record {
        valid = w.consistent.queued.valid;
        exact = w.consistent.queued.exact;
        clean = λ j y d.
            let (p, m) = w.consistent.queued.clean j y d in
            (
              p,
              update_ne (s.cache.swappable_blocks k).internal_data v s.cache.store.memory
                    (s.cache.swappable_blocks j).internal_data
                    (elsewhere j
                      (λ (e : j ≡ k). absurd (
                        ground (
                          arith,
                          y,
                          a,
                          ap (λ (x : ℕ). (s.cache.swappable_blocks x).reference_count) e,
                        )))
                      (ground (arith, y)))
                  ∙ m,
            );
      };
    }

    written-Outcome : Sound written × Follows (writing k v) s written
    unfolding write_block data_of written
    written-Outcome =
        let h = w.consistent.base.acquired_internal k a in
        let y : is_internal (s.cache.swappable_blocks k) ≡ true = ground (arith, h) in
        (
          Quiet-Sound k s written w written-Consistent written-Quiet
              (λ j n f. rw (update_ne k true s.touched j n) at f)
              (λ p f. absurd (cc (f, update_self k true s.touched))),
          (
            refl,
            refl,
            rw y (
                ap some
                  (update_self (s.cache.swappable_blocks k).internal_data v s.cache.store.memory)),
            λ j n. Quiet-Same j s written w.consistent written-Consistent (written-Quiet j n),
          ),
        )

  pub writing-Outcome :
      (key : SwappableBlock → Key) (k v : ℕ) (s : Session)
      → Sound s
      → Outcome (writing k v) s (perform key (writing k v) s)
  unfolding perform written
  writing-Outcome key k v s w = elim (Bool-cases (ltb 0 (counts s k))) [
    | inl y ↦
        let p : 0 < counts s k = ground (arith, y) in
        let o = written-Outcome k v s w p in rw y (inl (written k v s w p, refl, o.0, o.1))
    | inr f ↦ rw f (inr (refl, ground (arith, f)))
  ]
