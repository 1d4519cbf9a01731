-- ===== src/Mng/BlockScheduler/Cache/Evicts.antt =====
-- Eviction (`get_free_internal_block` of the caching algorithms of foxxll/mng/block_scheduler.hpp).
use foxxll.Prelude.{
  ℕ, ◌+◌, ◌<◌, ◌≡◌, ◌≢◌, refl, sym, ◌∙◌, subst, ap, true, none, some, inl, inr, ◌⊎◌, arith, update,
  update_self, update_ne, Bool-cases,
}
use foxxll.Mng.BlockScheduler.{SwappableBlock, Store, is_internal, is_external, is_evictable}
use foxxll.Mng.BlockScheduler.Detach.{data_of, Detached, IsFull, detach_internal_block-Detached}
use foxxll.Mng.BlockScheduler.Evictable.{Evictable}
use foxxll.Mng.BlockScheduler.Cache.{Cache, set_block, detach}
use foxxll.Mng.BlockScheduler.Cache.Base.{Base, update-each, Base-update, Base-more}
use foxxll.Mng.BlockScheduler.Cache.Valid.{
  evictable_count, Clean, content, CacheBase, Queued, QueuedBut, Consistent, Loose,
}

-- The data of a block that has been written out and lost its internal block.
pub Detached-data :
    (b : SwappableBlock) (s : Store) (b' : SwappableBlock) (s' : Store)
    → Detached b s b' s'
    → is_evictable b ≡ true
    → Clean b s
    → 0 < s.next_external
    → data_of b' s' ≡ data_of b s
unfolding data_of
Detached-data b s b' s' d e clean p = elim (Bool-cases b.dirty) [
  | inl y ↦ let (h, w) = d.written y p in ground (arith, d.not_internal, d.not_dirty, h, w, e)
  | inr f ↦
      let (x, same) = d.clean f in
      let (h, w) = clean e f in rw same (ground (arith, d.not_internal, d.not_dirty, x, h, w, e))
]

-- A block whose data are not in what has been written.
pub other-data :
    (b : SwappableBlock) (s s' : Store) (e : ℕ)
    → ((i : ℕ) → s'.memory i ≡ s.memory i)
    → ((x : ℕ) → x ≢ e → s'.disk x ≡ s.disk x)
    → (0 < b.external_data → b.external_data ≢ e)
    → data_of b s' ≡ data_of b s
unfolding data_of
other-data b s s' e m d n = elim (Bool-cases (is_internal b)) [
  | inl y ↦ rw (y, m) refl
  | inr f ↦ elim (Bool-cases (is_external b)) [
    | inl y ↦ rw (f, y) (ap some (d b.external_data (n (ground (arith, y)))))
    | inr g ↦ rw (f, g) refl
  ]
]

module _ ⦃evictable : Evictable⦄ where
  open evictable use {IsValid, holds, pop, pop-IsValid, pop_held, holds-pop}

  -- A block that the container does not hold is detached.
  pub record Detaches (k : ℕ) (c : Cache) (c' : Cache) : Type 0 where
    pub run : detach k c ≡ some ((c.swappable_blocks k).internal_data, c')
    pub consistent : Consistent c'
    pub loose : Loose (c.swappable_blocks k).internal_data c'
    pub others :
        (j : ℕ)
        → j ≢ k
        → (c'.swappable_blocks j ≡ c.swappable_blocks j) × (content j c' ≡ content j c)
    pub detached : Detached (c.swappable_blocks k) c.store (c'.swappable_blocks k) c'.store
    pub other_disk :
        (j : ℕ)
        → j ≢ k
        → 0 < (c.swappable_blocks j).external_data
        → c'.store.disk (c.swappable_blocks j).external_data
          ≡ c.store.disk (c.swappable_blocks j).external_data
    pub same_queue : c'.evictable_blocks ≡ c.evictable_blocks

  module _ (k : ℕ) (c : Cache) (v : CacheBase c) (e : is_evictable (c.swappable_blocks k) ≡ true)
      (b' : SwappableBlock) (s' : Store) (d : Detached (c.swappable_blocks k) c.store b' s') where
    fresh_external :
        (j : ℕ)
        → j ≢ k
        → 0 < (c.swappable_blocks j).external_data
        → (c.swappable_blocks j).external_data ≢ b'.external_data
    fresh_external j n p s = elim d.external [
      | inl (same, _) ↦ n (v.external_once j k p (s ∙ same))
      | inr (_, new, _) ↦ omega (arith, v.external_old j, s, new)
    ]

    detached-Base :
        Base c.free_internal_blocks c.next_internal
          (update k b' c.swappable_blocks)
          s'.next_external
    detached-Base = elim d.external [
      | inl (same, next) ↦ rw next (
          Base-update c.free_internal_blocks c.next_internal c.swappable_blocks
            c.store.next_external v k b'
            (record {
              held_old = omega (arith, d.not_internal, v.positive);
              held_not_free = λ p. absurd (omega (arith, p, d.not_internal));
              held_once = λ j n p. absurd (omega (arith, p, d.not_internal));
              external_old = omega (arith, same, v.external_old k);
              external_once =
                  λ j n p s. n (sym (v.external_once k j (omega (arith, p, same)) (sym same ∙ s)));
              dirty_internal = λ y. absurd (cc (y, d.not_dirty));
              acquired_internal = λ p. absurd (ground (arith, p, d.same_count, e));
            }))
      | inr (none_before, new, next) ↦ rw next (
          Base-update c.free_internal_blocks c.next_internal c.swappable_blocks
            (c.store.next_external + 1)
            (Base-more c.free_internal_blocks c.next_internal c.swappable_blocks
              c.store.next_external v)
            k b'
            (record {
              held_old = omega (arith, d.not_internal, v.positive);
              held_not_free = λ p. absurd (omega (arith, p, d.not_internal));
              held_once = λ j n p. absurd (omega (arith, p, d.not_internal));
              external_old = omega (arith, new);
              external_once = λ j n p s. omega (arith, v.external_old j, s, new);
              dirty_internal = λ y. absurd (cc (y, d.not_dirty));
              acquired_internal = λ p. absurd (ground (arith, p, d.same_count, e));
            }))
    ]

    detached-Queued : QueuedBut k c → Queued (record (set_block k b' c) { store = s' })
    unfolding set_block
    detached-Queued q = record {
      valid = q.valid;
      exact =
          update-each (λ j b. holds j c.evictable_blocks ≡ evictable_count b) k b'
            c.swappable_blocks (ground (arith, q.absent, d.not_internal)) q.exact;
      clean =
          update-each (λ j b. Clean b s') k b' c.swappable_blocks
            (λ y z. absurd (ground (arith, y, d.not_internal)))
            (λ j n y z.
              let (p, same) = q.clean j n y z in
              (
                p,
                d.same_memory (c.swappable_blocks j).internal_data
                    ∙ same
                    ∙ sym
                        (d.other_disk (c.swappable_blocks j).external_data (fresh_external j n p)),
              ));
    }

    detached-Loose :
        Loose (c.swappable_blocks k).internal_data (record (set_block k b' c) { store = s' })
    unfolding set_block
    detached-Loose =
        let p : 0 < (c.swappable_blocks k).internal_data = ground (arith, e) in
        record {
          positive = p;
          old = v.held_old k;
          not_free = v.held_not_free k p;
          not_held =
              update-each (λ j b. b.internal_data ≢ (c.swappable_blocks k).internal_data) k b'
                c.swappable_blocks (λ s. omega (arith, s, d.not_internal, p))
                (λ j n s. n (sym (v.held_once k j p (sym s))));
        }

    detach-run :
        detach k c
        ≡ some ((c.swappable_blocks k).internal_data, record (set_block k b' c) { store = s' })
    unfolding detach
    detach-run = rw d.run refl

  pub detach-Detaches :
      (k : ℕ) (c : Cache)
      → CacheBase c
      → QueuedBut k c
      → is_evictable (c.swappable_blocks k) ≡ true
      → ((c' : Cache) × Detaches k c c')
        ⊎ ((detach k c ≡ none) × IsFull (c.swappable_blocks k) c.store)
  unfolding set_block detach
  detach-Detaches k c v q e =
      elim (detach_internal_block-Detached (c.swappable_blocks k) c.store e) [
        | inr (none_now, full) ↦ inr (rw none_now refl, full)
        | inl (b', s', d) ↦ inl (
          record (set_block k b' c) { store = s' },
          record {
            run = detach-run k c v e b' s' d;
            consistent = record {
              base = detached-Base k c v e b' s' d;
              queued = detached-Queued k c v e b' s' d q;
            };
            loose = detached-Loose k c v e b' s' d;
            others = λ j n. (
              update_ne k b' c.swappable_blocks j n,
              ap (λ (b : SwappableBlock). data_of b s') (update_ne k b' c.swappable_blocks j n)
                  ∙ other-data (c.swappable_blocks j) c.store s' b'.external_data d.same_memory
                      d.other_disk (fresh_external k c v e b' s' d j n),
            );
            detached =
                subst (λ (b : SwappableBlock). Detached (c.swappable_blocks k) c.store b s')
                  (sym (update_self k b' c.swappable_blocks)) d;
            other_disk = λ j n p.
                d.other_disk (c.swappable_blocks j).external_data
                  (fresh_external k c v e b' s' d j n p);
            same_queue = refl;
          },
        )
      ]
