-- ===== src/Mng/BlockScheduler/Cache/Flushes.antt =====
-- `flush` of foxxll/mng/block_scheduler.hpp.
use mathlib.Core.Path.{fun_ext}
use foxxll.Prelude.{
  ℕ, zero, suc, ◌+◌, ◌<◌, ◌≤◌, ◌≡◌, ◌≢◌, refl, sym, ◌∙◌, subst, ap, Bool, true, false, Option, none,
  some, ◌==◌, ◌⊎◌, inl, inr, arith, update, update_self, Bool-cases, eq-or-ne,
}
use foxxll.Mng.BlockScheduler.{
  SwappableBlock, Store, is_evictable, ensure_external, write_out, clean_sync,
  detach_internal_block,
}
use foxxll.Mng.BlockScheduler.Detach.{IsFull, detach_internal_block-Detached}
use foxxll.Mng.BlockScheduler.Evictable.{Evictable}
use foxxll.Mng.BlockScheduler.Cache.{Cache, set_block, detach, detach_and_return, clean, flush}
use foxxll.Mng.BlockScheduler.Cache.Valid.{content, Consistent}
use foxxll.Mng.BlockScheduler.Cache.Evicts.{Detached-data}
use foxxll.Mng.BlockScheduler.Cache.Takes.{popped-evictable, popped-QueuedBut}
use foxxll.Mng.BlockScheduler.Cache.Drops.{Dropped, drop-Dropped}

-- A block that has been written is detached as if it had not been.
record Cleaned (b : SwappableBlock) (s : Store) (b1 : SwappableBlock) (s1 : Store) : Type 0 where
  clean_run : clean_sync b s ≡ some (b1, s1)
  same_detach : detach_internal_block b1 s1 ≡ detach_internal_block b s

cleaned :
    (b : SwappableBlock) (s : Store)
    → is_evictable b ≡ true
    → ((b1 : SwappableBlock) × (s1 : Store) × Cleaned b s b1 s1)
      ⊎ ((clean_sync b s ≡ none) × IsFull b s)
unfolding clean_sync ensure_external write_out detach_internal_block
cleaned b s e = elim (Bool-cases b.dirty) [
  | inr f ↦ inl (b, s, record { clean_run = rw f refl; same_detach = refl })
  | inl d ↦ elim (Bool-cases (b.external_data == 0)) [
    | inl z ↦ elim (Bool-cases (s.has_room s.next_external)) [
      | inr full ↦ inr (rw (d, z, full) refl, (d, ground (arith, z), full))
      | inl room ↦ inl (
        record b { dirty = false; external_data = s.next_external },
        record s {
          disk = update s.next_external (s.memory b.internal_data) s.disk;
          next_external = s.next_external + 1;
        },
        record {
          clean_run = ground (arith, e, d, z, room);
          same_detach = ground (arith, e, d, z, room);
        },
      )
    ]
    | inr z ↦ inl (
      record b { dirty = false },
      record s { disk = update b.external_data (s.memory b.internal_data) s.disk },
      record { clean_run = ground (arith, e, d, z); same_detach = ground (arith, e, d, z) },
    )
  ]
]

update_twice :
    (k : ℕ) (x y : SwappableBlock) (f : ℕ → SwappableBlock)
    → update k x (update k y f) ≡ update k x f
update_twice k x y f =
    fun_ext (λ j. elim (Bool-cases (j == k)) [ inl e ↦ rw e refl | inr e ↦ rw e refl ])

module _ ⦃evictable : Evictable⦄ where
  open evictable use {Queue, IsValid, holds, pop, size, pop_none, size-pop}

  -- No block is evictable any more, and every block has its data and its references.
  pub record Flushed (c c' : Cache) : Type 0 where
    pub consistent : Consistent c'
    pub none_evictable : (j : ℕ) → is_evictable (c'.swappable_blocks j) ≡ false
    pub same_content : (j : ℕ) → content j c' ≡ content j c
    pub same_count :
        (j : ℕ) → (c'.swappable_blocks j).reference_count ≡ (c.swappable_blocks j).reference_count
    pub acquired_disk :
        (j : ℕ)
        → 0 < (c.swappable_blocks j).reference_count
        → 0 < (c.swappable_blocks j).external_data
        → c'.store.disk (c.swappable_blocks j).external_data
          ≡ c.store.disk (c.swappable_blocks j).external_data
    pub acquired_same :
        (j : ℕ)
        → 0 < (c.swappable_blocks j).reference_count
        → c'.swappable_blocks j ≡ c.swappable_blocks j

  -- A block that is to be flushed is dirty and not on disk, and the block manager has no room for one
  -- of the blocks that it is asked for.
  abbrev pub FillsDisk : Cache → Type 0
  FillsDisk c =
      (j e : ℕ) × (is_evictable (c.swappable_blocks j) ≡ true)
      × ((c.swappable_blocks j).dirty ≡ true)
      × ((c.swappable_blocks j).external_data ≡ 0)
      × (c.store.next_external ≤ e)
      × (c.store.has_room e ≡ false)

  abbrev pub Flushes : Cache → Option Cache → Type 0
  Flushes c r = ((c' : Cache) × (r ≡ some c') × Flushed c c') ⊎ ((r ≡ none) × FillsDisk c)

  -- One round before: the disk is filled by a block that was there already.
  step-FillsDisk :
      (k : ℕ) (c : Cache) (q : Queue) (c1 : Cache)
      → Dropped k (record c { evictable_blocks = q }) c1
      → FillsDisk c1
      → FillsDisk c
  step-FillsDisk k c q c1 w (j, e, ev, d, x, l, full) =
      let n : j ≢ k = λ s. absurd (
        ground (
          arith,
          ev,
          w.detached.not_internal,
          ap (λ (y : ℕ). (c1.swappable_blocks y).internal_data) s,
        )) in
      let b = (w.others j n).0 in
      let m : c.store.next_external ≤ c1.store.next_external = elim w.detached.external [
        | inl (_, s) ↦ omega (arith, s)
        | inr (_, _, s) ↦ omega (arith, s)
      ] in
      (
        j,
        e,
        ap is_evictable (sym b) ∙ ev,
        ap (λ (y : SwappableBlock). y.dirty) (sym b) ∙ d,
        ap (λ (y : SwappableBlock). y.external_data) (sym b) ∙ x,
        omega (arith, l, m),
        ap (λ (f : ℕ → Bool). f e) (sym w.detached.same_room) ∙ full,
      )

  clean_then_detach :
      (k : ℕ) (c : Cache)
      → is_evictable (c.swappable_blocks k) ≡ true
      → ((c1 : Cache) × (clean k c ≡ some c1) × (detach_and_return k c1 ≡ detach_and_return k c))
        ⊎ ((clean k c ≡ none) × IsFull (c.swappable_blocks k) c.store)
  unfolding clean detach detach_and_return set_block
  clean_then_detach k c e = elim (cleaned (c.swappable_blocks k) c.store e) [
    | inr (none_now, full) ↦ inr (rw none_now refl, full)
    | inl (b1, s1, x) ↦ inl (
      record (set_block k b1 c) { store = s1 },
      rw x.clean_run refl,
      elim (detach_internal_block-Detached (c.swappable_blocks k) c.store e) [
        | inl (b', s', d) ↦
            rw
              (
                update_self k b1 c.swappable_blocks,
                x.same_detach,
                d.run,
                update_twice k b' b1 c.swappable_blocks,
              )
              refl
        | inr (none_now, _) ↦ rw (update_self k b1 c.swappable_blocks, x.same_detach, none_now) refl
      ],
    )
  ]

  -- One round, from the popped block on.
  step-Flushed :
      (k : ℕ) (c : Cache) (q : Queue) (c1 c' : Cache)
      → Consistent c
      → pop c.evictable_blocks ≡ some (k, q)
      → Dropped k (record c { evictable_blocks = q }) c1
      → Flushed c1 c'
      → Flushed c c'
  step-Flushed k c q c1 c' v e w f =
      let ev = popped-evictable k c q v.queued e in
      record {
        consistent = f.consistent;
        none_evictable = f.none_evictable;
        same_content = λ j. f.same_content j ∙ elim (eq-or-ne j k) [
          | inl s ↦ rw s (
              Detached-data (c.swappable_blocks k) c.store (c1.swappable_blocks k) c1.store
                w.detached ev (v.queued.clean k) v.base.positive_external)
          | inr n ↦ (w.others j n).1
        ];
        same_count = λ j. f.same_count j ∙ elim (eq-or-ne j k) [
          | inl s ↦ rw s w.detached.same_count
          | inr n ↦ ap (λ (b : SwappableBlock). b.reference_count) ((w.others j n).0)
        ];
        acquired_disk = λ j h p. elim (eq-or-ne j k) [
          | inl s ↦
              absurd
                (ground (arith, ev, h, ap (λ (x : ℕ). (c.swappable_blocks x).reference_count) s))
          | inr n ↦
              subst
                (λ (y : SwappableBlock).
                  c'.store.disk y.external_data ≡ c1.store.disk y.external_data)
                ((w.others j n).0)
                (f.acquired_disk j (rw ((w.others j n).0) h) (rw ((w.others j n).0) p))
              ∙ w.other_disk j n p
        ];
        acquired_same = λ j h. elim (eq-or-ne j k) [
          | inl s ↦
              absurd
                (ground (arith, ev, h, ap (λ (x : ℕ). (c.swappable_blocks x).reference_count) s))
          | inr n ↦ f.acquired_same j (rw ((w.others j n).0) h) ∙ (w.others j n).0
        ];
      }

  -- In a consistent scheduler, flush ends, in at most one round more than the container has blocks, and
  -- leaves no block evictable, every block with the data and the references that it had, acquired
  -- blocks the same, and the scheduler consistent. It fails only if there was an evictable dirty block
  -- without an external block, and the block manager refuses one of the blocks that it is asked for
  -- from now on.
  pub flush-Flushed :
      (n : ℕ) (next : Option (ℕ × Queue)) (c : Cache)
      → Consistent c
      → pop c.evictable_blocks ≡ next
      → size c.evictable_blocks < n
      → Flushes c (flush n next c)
  unfolding flush
  flush-Flushed zero next c v e l = absurd (omega (arith, l))
  flush-Flushed (suc n) none c v e l = inl (
    c,
    refl,
    record {
      consistent = v;
      none_evictable =
          λ j. ground (arith, v.queued.exact j, pop_none j c.evictable_blocks v.queued.valid e);
      same_content = λ j. refl;
      same_count = λ j. refl;
      acquired_same = λ j h. refl;
      acquired_disk = λ j h p. refl;
    },
  )
  flush-Flushed (suc n) (some (k, q)) c v e l =
      let ev = popped-evictable k c q v.queued e in
      let but = popped-QueuedBut k c q v.queued e in
      let smaller = size-pop k c.evictable_blocks q v.queued.valid e in
      elim (clean_then_detach k (record c { evictable_blocks = q }) ev) [
        | inr (none_now, full) ↦
            inr (
              rw none_now refl,
              (k, c.store.next_external, ev, full.0, full.1, omega arith, full.2),
            )
        | inl (cleaned_c, run, same) ↦
            elim (drop-Dropped k (record c { evictable_blocks = q }) v.base but ev) [
              | inr (none_now, full) ↦ inr (
                rw (run, same, none_now) refl,
                (k, c.store.next_external, ev, full.0, full.1, omega arith, full.2),
              )
              | inl (c1, run1, w) ↦
                  elim (flush-Flushed n (pop c1.evictable_blocks) c1 w.consistent refl
                    (rw w.same_queue (omega (arith, smaller, l)))) [
                      | inl (c', run2, f) ↦
                          inl (c', rw (run, same, run1) run2, step-Flushed k c q c1 c' v e w f)
                      | inr (none_now, fills) ↦
                          inr (rw (run, same, run1) none_now, step-FillsDisk k c q c1 w fills)
                    ]
            ]
      ]
