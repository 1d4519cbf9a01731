-- ===== src/Mng/BlockScheduler/Cache/Takes.antt =====
-- How the caching algorithms of foxxll/mng/block_scheduler.hpp find an internal block
-- (`get_free_internal_block` of the scheduler and of the algorithms).
use foxxll.Prelude.{
  ℕ, ◌≡◌, refl, subst, ap, true, false, Option, none, some, ltb, inl, inr, ◌⊎◌, arith, Bool-cases,
  eq-or-ne, List, [], ◌∷◌,
}
use foxxll.Mng.BlockScheduler.{SwappableBlock, is_evictable}
use foxxll.Mng.BlockScheduler.Detach.{IsFull}
use foxxll.Mng.BlockScheduler.Evictable.{Evictable}
use foxxll.Mng.BlockScheduler.Cache.{
  Cache, num_blocks, allocate_array, take_internal, evict, or_evict, get_free_internal_block,
}
use foxxll.Mng.BlockScheduler.Cache.Base.{Base}
use foxxll.Mng.BlockScheduler.Cache.Valid.{Queued, QueuedBut, Consistent, Got}
use foxxll.Mng.BlockScheduler.Cache.Evicts.{Detaches, detach-Detaches, Detached-data}
use foxxll.Mng.BlockScheduler.Cache.Free.{Taken, take-Taken, allocate-Taken}

module _ ⦃evictable : Evictable⦄ where
  open evictable use {Queue, IsValid, holds, pop, pop_none, pop-IsValid, pop_held, holds-pop}

  -- No internal block can be had: all of them are in use, and by blocks that are acquired.
  abbrev pub IsExhausted : Cache → Type 0
  IsExhausted c =
      (c.free_internal_blocks ≡ [])
      × (c.remaining_internal_blocks ≡ 0)
      × ((j : ℕ) → is_evictable (c.swappable_blocks j) ≡ false)

  -- The next evictable block is dirty and not on disk, and there is no room for it.
  abbrev pub IsStuck : Cache → Type 0
  IsStuck c =
      (c.free_internal_blocks ≡ [])
      × (c.remaining_internal_blocks ≡ 0)
      × (k : ℕ) × (q : Queue) × (pop c.evictable_blocks ≡ some (k, q))
      × IsFull (c.swappable_blocks k) c.store

  -- What looking for an internal block gives.
  abbrev pub Gets : Cache → Option (ℕ × Cache) → Type 0
  Gets c r =
      ((i : ℕ) × (c' : Cache) × (r ≡ some (i, c')) × Got i c c')
      ⊎ ((r ≡ none) × (IsExhausted c ⊎ IsStuck c))

  Taken-Got :
      (i : ℕ) (free : List ℕ) (new remaining : ℕ) (c : Cache)
      → Taken i free new c.swappable_blocks c.store.next_external
      → Queued c
      → Got i c (record c {
        free_internal_blocks = free;
        next_internal = new;
        remaining_internal_blocks = remaining;
      })
  Taken-Got i free new remaining c t q = record {
    consistent = record {
      base = t.base;
      queued = record { valid = q.valid; exact = q.exact; clean = q.clean };
    };
    loose = record {
      positive = t.positive;
      old = t.old;
      not_free = t.not_free;
      not_held = t.not_held;
    };
    same_content = λ j. refl;
    not_internal_same = λ j h. refl;
    same_count = λ j. refl;
    acquired_same = λ j h. refl;
    acquired_disk = λ j h p. refl;
    same_memory = λ j. refl;
  }

  take_internal-Takes :
      (free : List ℕ) (c : Cache)
      → c.free_internal_blocks ≡ free
      → Consistent c
      → ((i : ℕ) × (c' : Cache) × (take_internal free c ≡ some (i, c')) × Got i c c')
        ⊎ ((take_internal free c ≡ none)
            × (c.free_internal_blocks ≡ [])
            × (c.remaining_internal_blocks ≡ 0))
  unfolding take_internal allocate_array num_blocks
  take_internal-Takes (i ∷ free) c e v = inl (
    i,
    _,
    refl,
    Taken-Got i free c.next_internal c.remaining_internal_blocks c
        (take-Taken i free c.next_internal c.swappable_blocks c.store.next_external (
          subst (λ (f : List ℕ). Base f c.next_internal c.swappable_blocks c.store.next_external) e
            v.base))
        v.queued,
  )
  take_internal-Takes [] c e v = elim (Bool-cases (ltb 0 c.remaining_internal_blocks)) [
    | inl y ↦ inl (
      c.next_internal,
      (allocate_array (num_blocks c.remaining_internal_blocks) c).1,
      rw y refl,
      Taken-Got c.next_internal _ _ _ c
          (allocate-Taken (num_blocks c.remaining_internal_blocks) c.free_internal_blocks
            c.next_internal c.swappable_blocks c.store.next_external (ground (arith, y)) v.base)
          v.queued,
    )
    | inr f ↦ inr (rw f refl, e, ground (arith, f))
  ]

  pub popped-evictable :
      (k : ℕ) (c : Cache) (q : Queue)
      → Queued c
      → pop c.evictable_blocks ≡ some (k, q)
      → is_evictable (c.swappable_blocks k) ≡ true
  popped-evictable k c q v e = ground (arith, pop_held k c.evictable_blocks q v.valid e, v.exact k)

  pub popped-QueuedBut :
      (k : ℕ) (c : Cache) (q : Queue)
      → Queued c
      → pop c.evictable_blocks ≡ some (k, q)
      → QueuedBut k (record c { evictable_blocks = q })
  popped-QueuedBut k c q v e = record {
    valid = pop-IsValid k c.evictable_blocks q v.valid e;
    absent = ground (arith, holds-pop k k c.evictable_blocks q v.valid e);
    exact = λ j n. ground (arith, holds-pop j k c.evictable_blocks q v.valid e, v.exact j, n);
    clean = λ j n. v.clean j;
  }

  evicted-Got :
      (k : ℕ) (c : Cache) (q : Queue) (c' : Cache)
      → Consistent c
      → pop c.evictable_blocks ≡ some (k, q)
      → Detaches k (record c { evictable_blocks = q }) c'
      → Got ((c.swappable_blocks k).internal_data) c c'
  evicted-Got k c q c' v e d =
      let ev = popped-evictable k c q v.queued e in
      record {
        consistent = d.consistent;
        loose = d.loose;
        same_content = λ j. elim (eq-or-ne j k) [
          | inl s ↦ rw s (
              Detached-data (c.swappable_blocks k) c.store (c'.swappable_blocks k) c'.store
                d.detached ev (v.queued.clean k) v.base.positive_external)
          | inr n ↦ (d.others j n).1
        ];
        not_internal_same = λ j h. elim (eq-or-ne j k) [
          | inl s ↦
              absurd (ground (arith, ev, h, ap (λ (x : ℕ). (c.swappable_blocks x).internal_data) s))
          | inr n ↦ (d.others j n).0
        ];
        same_count = λ j. elim (eq-or-ne j k) [
          | inl s ↦ rw s d.detached.same_count
          | inr n ↦ ap (λ (b : SwappableBlock). b.reference_count) ((d.others j n).0)
        ];
        acquired_same = λ j h. elim (eq-or-ne j k) [
          | inl s ↦
              absurd
                (ground (arith, ev, h, ap (λ (x : ℕ). (c.swappable_blocks x).reference_count) s))
          | inr n ↦ (d.others j n).0
        ];
        acquired_disk = λ j h. elim (eq-or-ne j k) [
          | inl s ↦
              absurd
                (ground (arith, ev, h, ap (λ (x : ℕ). (c.swappable_blocks x).reference_count) s))
          | inr n ↦ d.other_disk j n
        ];
        same_memory = d.detached.same_memory;
      }

  evict-Gets :
      (next : Option (ℕ × Queue)) (c : Cache)
      → pop c.evictable_blocks ≡ next
      → c.free_internal_blocks ≡ []
      → c.remaining_internal_blocks ≡ 0
      → Consistent c
      → Gets c (evict next c)
  unfolding evict
  evict-Gets none c e f r v = inr (
    refl,
    inl (
      f,
      r,
      λ j. ground (arith, v.queued.exact j, pop_none j c.evictable_blocks v.queued.valid e),
    ),
  )
  evict-Gets (some (k, q)) c e f r v =
      elim (detach-Detaches k (record c { evictable_blocks = q }) v.base
        (popped-QueuedBut k c q v.queued e) (popped-evictable k c q v.queued e)) [
          | inl (c', d) ↦
              inl ((c.swappable_blocks k).internal_data, c', d.run, evicted-Got k c q c' v e d)
          | inr (none_now, full) ↦ inr (none_now, inr (f, r, k, q, e, full))
        ]

  -- In a consistent scheduler, looking for an internal block ends with one that is free and that no
  -- swappable block holds; the scheduler is consistent then, every swappable block has the data and the
  -- references that it had, and those acquired or not in memory are the same. It fails only when the free
  -- list is empty and no internal block is left to allocate, and either no block is evictable or the
  -- block that the container gives first is dirty, has no external block, and the block manager has
  -- none for it.
  pub get_free_internal_block-Gets : (c : Cache) → Consistent c → Gets c (get_free_internal_block c)
  unfolding get_free_internal_block or_evict
  get_free_internal_block-Gets c v = elim (take_internal-Takes c.free_internal_blocks c refl v) [
    | inl (i, c', e, g) ↦ inl (i, c', rw e refl, g)
    | inr (e, f, r) ↦ rw e (evict-Gets (pop c.evictable_blocks) c refl f r v)
  ]
