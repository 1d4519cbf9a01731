-- ===== src/Mng/BlockScheduler/Cache/Extracts.antt =====
-- `extract_external_block` of the caching algorithms of foxxll/mng/block_scheduler.hpp.
use foxxll.Prelude.{
  ℕ, ◌<◌, ◌≡◌, ◌≢◌, refl, sym, ◌∙◌, subst, ap, true, false, Option, none, some, ◌==◌, if◌then◌else◌,
  inl, inr, ◌⊎◌, arith, update_self, update_ne, Bool-cases,
}
use foxxll.Mng.BlockScheduler.{
  SwappableBlock, is_internal, is_acquired, extract_external_block, detach_internal_block,
}
use foxxll.Mng.BlockScheduler.Detach.{data_of, IsFull}
use foxxll.Mng.BlockScheduler.Evictable.{Evictable}
use foxxll.Mng.BlockScheduler.Cache.{
  Cache, set_block, erase_evictable, detach, detach_and_return, take_external, extract,
}
use foxxll.Mng.BlockScheduler.Cache.Base.{update-each}
use foxxll.Mng.BlockScheduler.Cache.Valid.{content, Consistent}
use foxxll.Mng.BlockScheduler.Cache.Evicts.{Detached-data}
use foxxll.Mng.BlockScheduler.Cache.Acquires.{erased-QueuedBut}
use foxxll.Mng.BlockScheduler.Cache.Drops.{drop-Dropped}
use foxxll.Mng.BlockScheduler.Cache.Initialized.{not_internal, external-Consistent, IsUnheld}

module _ ⦃evictable : Evictable⦄ where
  open evictable use {Queue, IsValid, holds, erase}

  -- `e` holds what the block held, and belongs to the caller; 0 where the block held nothing.
  pub record Extracted (k : ℕ) (c : Cache) (e : ℕ) (c' : Cache) : Type 0 where
    pub consistent : Consistent c'
    pub gone : content k c' ≡ none
    pub moved : content k c ≡ (if e == 0 then none else some (c'.store.disk e))
    pub unused : 0 < e → IsUnheld e c'
    pub idle : (c'.swappable_blocks k).reference_count ≡ 0
    pub other_disk :
        (j : ℕ)
        → j ≢ k
        → 0 < (c.swappable_blocks j).external_data
        → c'.store.disk (c.swappable_blocks j).external_data
          ≡ c.store.disk (c.swappable_blocks j).external_data
    pub others :
        (j : ℕ)
        → j ≢ k
        → (c'.swappable_blocks j ≡ c.swappable_blocks j) × (content j c' ≡ content j c)

  take_external-Extracted :
      (k : ℕ) (c : Cache)
      → Consistent c
      → (c.swappable_blocks k).internal_data ≡ 0
      → (c' : Cache) × (take_external k c ≡ some ((c.swappable_blocks k).external_data, c'))
        × Extracted k c (c.swappable_blocks k).external_data c'
  unfolding take_external extract_external_block set_block data_of
  take_external-Extracted k c v z =
      let (d, r) = not_internal k c v z in
      let b : SwappableBlock = record (c.swappable_blocks k) { external_data = 0 } in
      (
        set_block k b c,
        rw z refl,
        record {
          consistent =
              external-Consistent k 0 c v z v.base.positive_external
                (λ j n h. absurd (omega (arith, h)));
          gone =
              ap (λ (x : SwappableBlock). data_of x c.store) (update_self k b c.swappable_blocks)
              ∙ rw z refl;
          moved =
              rw (z, d)
                (elim (Bool-cases ((c.swappable_blocks k).external_data == 0)) [
                  | inl y ↦ rw y refl
                  | inr f ↦ rw f refl
                ]);
          unused = λ h. (
            h,
            v.base.external_old k,
            update-each (λ j x. x.external_data ≢ (c.swappable_blocks k).external_data) k b
                c.swappable_blocks (λ e. omega (arith, e, h))
                (λ j n e. n (sym (v.base.external_once k j h (sym e)))),
          );
          idle = rw (update_self k b c.swappable_blocks) r;
          other_disk = λ j n p. refl;
          others = λ j n. (
            update_ne k b c.swappable_blocks j n,
            ap (λ (x : SwappableBlock). data_of x c.store) (update_ne k b c.swappable_blocks j n),
          );
        },
      )

  abbrev pub Extracts : ℕ → Cache → Option (ℕ × Cache) → Type 0
  Extracts k c r =
      ((is_acquired (c.swappable_blocks k) ≡ false)
        × (e : ℕ) × (c' : Cache) × (r ≡ some (e, c'))
        × Extracted k c e c')
      ⊎ ((is_acquired (c.swappable_blocks k) ≡ true) × (r ≡ none))
      ⊎ (IsFull (c.swappable_blocks k) c.store
          × (is_acquired (c.swappable_blocks k) ≡ false)
          × (r ≡ none))

  detach_acquired :
      (k : ℕ) (c : Cache)
      → is_acquired (c.swappable_blocks k) ≡ true
      → detach_and_return k (erase_evictable k c) ≡ none
  unfolding detach_and_return detach detach_internal_block erase_evictable
  detach_acquired k c a = rw (a, a) refl

  extract_internal :
      (k : ℕ) (c : Cache)
      → Consistent c
      → is_acquired (c.swappable_blocks k) ≡ false
      → is_internal (c.swappable_blocks k) ≡ true
      → ((e : ℕ) × (c' : Cache) × (extract k c ≡ some (e, c')) × Extracted k c e c')
        ⊎ (IsFull (c.swappable_blocks k) c.store × (extract k c ≡ none))
  unfolding extract erase_evictable
  extract_internal k c v a y =
      elim (drop-Dropped k (record c { evictable_blocks = erase k c.evictable_blocks }) v.base
        (erased-QueuedBut k c v a) (rw (a, y) refl)) [
          | inr (none_now, full) ↦ inr (full, rw (y, a, none_now) refl)
          | inl (c2, run, w) ↦
              let (c', run', x) =
                take_external-Extracted k c2 w.consistent w.detached.not_internal in
              let same =
                Detached-data (c.swappable_blocks k) c.store (c2.swappable_blocks k) c2.store
                  w.detached (rw (a, y) refl) (v.queued.clean k) v.base.positive_external in
              inl (
                _,
                c',
                rw (y, a, run) run',
                record {
                  consistent = x.consistent;
                  gone = x.gone;
                  moved = sym same ∙ x.moved;
                  unused = x.unused;
                  idle = x.idle;
                  other_disk = λ j n p.
                      subst
                        (λ (y : SwappableBlock).
                          c'.store.disk y.external_data ≡ c2.store.disk y.external_data)
                        ((w.others j n).0) (x.other_disk j n (rw ((w.others j n).0) p))
                      ∙ w.other_disk j n p;
                  others = λ j n.
                      ((x.others j n).0 ∙ (w.others j n).0, (x.others j n).1 ∙ (w.others j n).1);
                },
              )
        ]

  pub extract-Extracts : (k : ℕ) (c : Cache) → Consistent c → Extracts k c (extract k c)
  unfolding extract
  extract-Extracts k c v = elim (Bool-cases (is_acquired (c.swappable_blocks k))) [
    | inl a ↦ inr (
        inl (
          a,
          let p = v.base.acquired_internal k (ground (arith, a)) in
              let h : is_internal (c.swappable_blocks k) ≡ true = ground (arith, p) in
              rw (h, detach_acquired k c a) refl,
        ))
    | inr a ↦ elim (Bool-cases (is_internal (c.swappable_blocks k))) [
      | inl y ↦ elim (extract_internal k c v a y) [
        | inl (e, c', run, x) ↦ inl (a, e, c', run, x)
        | inr (full, none_now) ↦ inr (inr (full, a, none_now))
      ]
      | inr f ↦
          let (c', run, x) = take_external-Extracted k c v (ground (arith, f)) in
          inl (a, _, c', rw f run, x)
    ]
  ]
