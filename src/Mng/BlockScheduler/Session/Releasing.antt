-- ===== src/Mng/BlockScheduler/Session/Releasing.antt =====
-- `release` of foxxll/mng/block_scheduler.hpp, as the user sees it.
use foxxll.Prelude.{
  ℕ, ◌<◌, ◌≡◌, ◌≢◌, refl, sym, ◌∙◌, Bool, true, false, ◌&&◌, ◌||◌, Option, none, ltb, ◌==◌,
  if◌then◌else◌, inl, inr, arith, update, update_self, update_ne, Bool-cases,
}
use foxxll.Mng.BlockScheduler.{SwappableBlock, is_acquired}
use foxxll.Mng.BlockScheduler.Evictable.{Evictable}
use foxxll.Mng.BlockScheduler.Cache.{Cache}
use foxxll.Mng.BlockScheduler.Cache.Valid.{has_data, content}
use foxxll.Mng.BlockScheduler.Cache.Keeps.{Released, IsUnchanged}
use foxxll.Mng.BlockScheduler.Cache.Releases.{release-Releases}
use foxxll.Mng.BlockScheduler.Session.{
  releasing, Session, is_honest, perform, counts, Follows, Sound, Outcome,
}
use foxxll.Mng.BlockScheduler.Session.Steps.{Quiet, Quiet-Sound}
use foxxll.Mng.BlockScheduler.Session.Returning.{others-Same, still-Quiet}

still_kept : (a b : Bool) (o : Option ℕ) → (a || b) ≡ true → o ≡ (if a || b then o else none)
still_kept a b o h = rw h refl

not_kept : (a b : Bool) (o : Option ℕ) → a ≡ false → b ≡ false → (if a || b then o else none) ≡ none
not_kept a b o h g = rw (h, g) refl

module _ ⦃evictable : Evictable⦄ where
  open evictable use {Key, holds, pop, size}

  is_honest-IsUnchanged :
      (k : ℕ) (dirty : Bool) (s : Session)
      → Sound s
      → is_honest k dirty s ≡ true
      → 0 < counts s k
      → (dirty || (s.cache.swappable_blocks k).dirty) ≡ false
      → IsUnchanged (s.cache.swappable_blocks k) s.cache.store
  unfolding is_honest
  is_honest-IsUnchanged k dirty s v h p d =
      v.saved k p
        (elim (Bool-cases (s.touched k)) [ inl y ↦ absurd (cc (rw (d, y) at h)) | inr f ↦ f ])
        (elim (Bool-cases (s.cache.swappable_blocks k).dirty) [
          | inl y ↦ absurd (ground (arith, y, d))
          | inr f ↦ f
        ])

  abbrev after_release : ℕ → Session → Cache → Session
  after_release k s c = record {
    cache = c;
    touched = update k (s.touched k && is_acquired (c.swappable_blocks k)) s.touched;
  }

  release-Quiet :
      (k j : ℕ) (dirty : Bool) (c c' : Cache) → Released k dirty c c' → j ≢ k → Quiet c c' j
  release-Quiet k j dirty c c' d n = still-Quiet j c c' (d.others j n) (d.other_disk j n)

  release-Sound :
      (k : ℕ) (dirty : Bool) (s : Session) (c : Cache)
      → Sound s
      → Released k dirty s.cache c
      → Sound (after_release k s c)
  release-Sound k dirty s c v d =
      Quiet-Sound k s (after_release k s c) v d.consistent
        (λ j n. release-Quiet k j dirty s.cache c d n)
        (λ j n f.
          rw (update_ne k (s.touched k && is_acquired (c.swappable_blocks k)) s.touched j n) at f)
        (λ p f. d.saved (omega (arith, d.counted, p)) (
          v.saved k (omega (arith, d.counted)) (elim (Bool-cases (s.touched k)) [
            | inr g ↦ g
            | inl y ↦ absurd (
                ground (
                  arith,
                  p,
                  y,
                  sym (update_self k (s.touched k && is_acquired (c.swappable_blocks k)) s.touched)
                      ∙ f,
                ))
          ])))

  release-contents :
      (k : ℕ) (dirty : Bool) (s : Session) (c : Cache)
      → Sound s
      → Released k dirty s.cache c
      → content k c ≡ (
          if has_data (c.swappable_blocks k) || ltb 0 (c.swappable_blocks k).reference_count
          then content k s.cache
          else none)
  release-contents k dirty s c v d =
      elim (Bool-cases (ltb 0 (c.swappable_blocks k).reference_count)) [
        | inl y ↦
            d.kept (inl (ground (arith, y, d.counted)))
            ∙ still_kept (has_data (c.swappable_blocks k))
                (ltb 0 (c.swappable_blocks k).reference_count) (content k s.cache)
                (ground (arith, y))
        | inr f ↦ elim (Bool-cases (dirty || (s.cache.swappable_blocks k).dirty)) [
          | inl y ↦
              d.kept (inr (inl y))
              ∙ still_kept (has_data (c.swappable_blocks k))
                  (ltb 0 (c.swappable_blocks k).reference_count) (content k s.cache)
                  (ground (arith, y, d.now_data))
          | inr g ↦ elim (Bool-cases ((s.cache.swappable_blocks k).external_data == 0)) [
            | inl z ↦
                (d.dropped (ground (arith, f, d.counted)) g (ground (arith, z))).0
                ∙ sym (
                    not_kept (has_data (c.swappable_blocks k))
                      (ltb 0 (c.swappable_blocks k).reference_count) (content k s.cache)
                      (ground (arith, g, z, d.now_data)) f)
            | inr z ↦
                d.kept (inr (inr (ground (arith, z))))
                ∙ still_kept (has_data (c.swappable_blocks k))
                    (ltb 0 (c.swappable_blocks k).reference_count) (content k s.cache)
                    (ground (arith, z, d.now_data))
          ]
        ]
      ]

  release-Follows :
      (k : ℕ) (dirty : Bool) (s : Session) (c : Cache)
      → Sound s
      → Released k dirty s.cache c
      → Follows (releasing k dirty) s (after_release k s c)
  release-Follows k dirty s c v d = (
    d.counted,
    d.now_data,
    release-contents k dirty s c v d,
    others-Same k s (after_release k s c) v d.consistent
        (λ j n. release-Quiet k j dirty s.cache c d n),
  )

  pub releasing-Outcome :
      (key : SwappableBlock → Key) (k : ℕ) (dirty : Bool) (s : Session)
      → Sound s
      → Outcome (releasing k dirty) s (perform key (releasing k dirty) s)
  unfolding perform
  releasing-Outcome key k dirty s v = elim (Bool-cases (is_honest k dirty s)) [
    | inr n ↦ rw n (inr (refl, inr refl))
    | inl h ↦
        elim (release-Releases key k dirty s.cache v.consistent
          (is_honest-IsUnchanged k dirty s v h)) [
            | inr (a, e) ↦ rw (h, e) (inr (refl, inl (ground (arith, a))))
            | inl (a, c, e, d) ↦
                rw (h, e)
                  (inl (
                    after_release k s c,
                    refl,
                    release-Sound k dirty s c v d,
                    release-Follows k dirty s c v d,
                  ))
          ]
  ]
