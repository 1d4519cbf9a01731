-- ===== src/Mng/BlockScheduler/Session/Steps.antt =====
-- The operations of the block scheduler (foxxll/mng/block_scheduler.hpp), as its user sees them.
use foxxll.Prelude.{
  ℕ, ◌<◌, ◌≡◌, ◌≢◌, refl, sym, ◌∙◌, subst, ap, Bool, true, false, Option, none, some, ltb, ◌==◌,
  inl, inr, arith, Bool-cases, eq-or-ne,
}
use foxxll.Mng.BlockScheduler.{SwappableBlock, Store, is_internal}
use foxxll.Mng.BlockScheduler.Detach.{data_of}
use foxxll.Mng.BlockScheduler.Evictable.{Evictable}
use foxxll.Mng.BlockScheduler.Cache.{Cache}
use foxxll.Mng.BlockScheduler.Cache.Valid.{Saved, has_data, content, Consistent}
use foxxll.Mng.BlockScheduler.Cache.Initialized.{not_internal}
use foxxll.Mng.BlockScheduler.Session.{Session, counts, Same, Sound}

abbrev pub is_some : Option ℕ → Bool
is_some none = false
is_some (some x) = true

same-Saved :
    (b : SwappableBlock) (s s' : Store)
    → 0 < b.internal_data
    → data_of b s' ≡ data_of b s
    → (0 < b.external_data → s'.disk b.external_data ≡ s.disk b.external_data)
    → Saved b s
    → Saved b s'
unfolding data_of
same-Saved b s s' p e d v y x = ground (arith, p, e, d x, v y x)

module _ ⦃evictable : Evictable⦄ where
  open evictable use {Key, holds, pop, size}

  -- What an operation leaves of a block that it is not about.
  pub record Quiet (c c' : Cache) (j : ℕ) : Type 0 where
    pub quiet_content : content j c' ≡ content j c
    pub quiet_count :
        (c'.swappable_blocks j).reference_count ≡ (c.swappable_blocks j).reference_count
    pub quiet_block :
        0 < (c.swappable_blocks j).reference_count → c'.swappable_blocks j ≡ c.swappable_blocks j
    pub quiet_disk :
        0 < (c.swappable_blocks j).reference_count
        → 0 < (c.swappable_blocks j).external_data
        → c'.store.disk (c.swappable_blocks j).external_data
          ≡ c.store.disk (c.swappable_blocks j).external_data

  -- A block that nobody has acquired keeps its data.
  pub idle-has_data :
      (j : ℕ) (c : Cache)
      → Consistent c
      → (c.swappable_blocks j).reference_count ≡ 0
      → has_data (c.swappable_blocks j) ≡ is_some (content j c)
  unfolding data_of
  idle-has_data j c v r = elim (Bool-cases (is_internal (c.swappable_blocks j))) [
    | inl y ↦ elim (Bool-cases (c.swappable_blocks j).dirty) [
      | inl d ↦ rw (y, d) refl
      | inr d ↦
          let (p, _) = v.queued.clean j (rw (r, y) refl) d in
          let e : ((c.swappable_blocks j).external_data == 0) ≡ false = ground (arith, p) in
          rw (y, d, e) refl
    ]
    | inr n ↦
        let (d, _) = not_internal j c v (ground (arith, n)) in
        elim (Bool-cases ((c.swappable_blocks j).external_data == 0)) [
          | inl e ↦ rw (n, d, e) refl
          | inr e ↦ rw (n, d, e) refl
        ]
  ]

  pub Quiet-has_data :
      (j : ℕ) (c c' : Cache)
      → Consistent c
      → Consistent c'
      → Quiet c c' j
      → has_data (c'.swappable_blocks j) ≡ has_data (c.swappable_blocks j)
  Quiet-has_data j c c' v v' q = elim (Bool-cases (ltb 0 (c.swappable_blocks j).reference_count)) [
    | inl y ↦ ap has_data (q.quiet_block (ground (arith, y)))
    | inr f ↦
        let r : (c.swappable_blocks j).reference_count ≡ 0 = ground (arith, f) in
        idle-has_data j c' v' (q.quiet_count ∙ r)
        ∙ ap is_some q.quiet_content
        ∙ sym (idle-has_data j c v r)
  ]

  pub Quiet-Same :
      (j : ℕ) (s s' : Session)
      → Consistent s.cache
      → Consistent s'.cache
      → Quiet s.cache s'.cache j
      → Same s s' j
  Quiet-Same j s s' v v' q = record {
    same_contents = q.quiet_content;
    same_counts = q.quiet_count;
    same_keeps = Quiet-has_data j s.cache s'.cache v v' q;
  }

  pub Quiet-Saved :
      (j : ℕ) (c c' : Cache)
      → Consistent c
      → Quiet c c' j
      → 0 < (c'.swappable_blocks j).reference_count
      → (0 < (c.swappable_blocks j).reference_count → Saved (c.swappable_blocks j) c.store)
      → Saved (c'.swappable_blocks j) c'.store
  Quiet-Saved j c c' v q p m =
      let p' : 0 < (c.swappable_blocks j).reference_count = rw q.quiet_count at p in
      let e = q.quiet_block p' in
      subst (λ (b : SwappableBlock). Saved b c'.store) (sym e)
        (same-Saved (c.swappable_blocks j) c.store c'.store (v.base.acquired_internal j p')
          (ap (λ (b : SwappableBlock). data_of b c'.store) (sym e) ∙ q.quiet_content)
          (q.quiet_disk p') (m p'))

  -- The blocks but `k` are left alone, and `k` is not acquired or is fine.
  pub Quiet-Sound :
      (k : ℕ) (s s' : Session)
      → Sound s
      → Consistent s'.cache
      → ((j : ℕ) → j ≢ k → Quiet s.cache s'.cache j)
      → ((j : ℕ) → j ≢ k → s'.touched j ≡ false → s.touched j ≡ false)
      → (0 < counts s' k
          → s'.touched k ≡ false
          → Saved (s'.cache.swappable_blocks k) s'.cache.store)
      → Sound s'
  Quiet-Sound k s s' v c q t m = record {
    consistent = c;
    saved = λ j p f. elim (eq-or-ne j k) [
      | inl e ↦
          subst (λ (x : ℕ). Saved (s'.cache.swappable_blocks x) s'.cache.store) (sym e)
            (m (subst (λ (x : ℕ). 0 < counts s' x) e p)
              (subst (λ (x : ℕ). s'.touched x ≡ false) e f))
      | inr n ↦ Quiet-Saved j s.cache s'.cache v.consistent (q j n) p (λ h. v.saved j h (t j n f))
    ];
  }
