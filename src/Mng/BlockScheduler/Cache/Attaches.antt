-- ===== src/Mng/BlockScheduler/Cache/Attaches.antt =====
-- The branches of `acquire` of the caching algorithms of foxxll/mng/block_scheduler.hpp.
use foxxll.Prelude.{
  ℕ, ◌+◌, ◌<◌, ◌≡◌, ◌≢◌, refl, sym, ◌∙◌, ap, Bool, true, false, Option, none, some, ltb, ◌==◌, inl,
  inr, ◌⊎◌, arith, update, update_self, update_ne,
}
use foxxll.Mng.BlockScheduler.{
  SwappableBlock, Store, is_internal, is_initialized, is_evictable, acquire_block,
  get_internal_block, read_sync,
}
use foxxll.Mng.BlockScheduler.Detach.{data_of}
use foxxll.Mng.BlockScheduler.Evictable.{Evictable}
use foxxll.Mng.BlockScheduler.Cache.{Cache, set_block, acquire_at}
use foxxll.Mng.BlockScheduler.Cache.Base.{Fits, update-each, Base-update}
use foxxll.Mng.BlockScheduler.Cache.Valid.{
  evictable_count, Clean, Saved, has_data, content, CacheBase, QueuedBut, Consistent, Got,
}
use foxxll.Mng.BlockScheduler.Cache.Takes.{IsExhausted, IsStuck}

-- The block in memory at `i` may have been written, and nothing else.
pub record Stored (i : ℕ) (s s' : Store) : Type 0 where
  pub memory : (j : ℕ) → j ≢ i → s'.memory j ≡ s.memory j
  pub disk : (x : ℕ) → s'.disk x ≡ s.disk x
  pub next : s'.next_external ≡ s.next_external

pub Stored-data :
    (i : ℕ) (b : SwappableBlock) (s s' : Store)
    → Stored i s s'
    → b.internal_data ≢ i
    → data_of b s' ≡ data_of b s
unfolding data_of
Stored-data i b s s' t n = rw (t.memory b.internal_data n, t.disk b.external_data) refl

pub read_sync-run :
    (b : SwappableBlock) (s : Store)
    → is_internal b ≡ true
    → 0 < b.external_data
    → read_sync b s
      ≡ some (
        record b { dirty = false },
        record s { memory = update b.internal_data (s.disk b.external_data) s.memory },
      )
unfolding read_sync
read_sync-run b s h p = let e : (b.external_data == 0) ≡ false = ground (arith, p) in rw (h, e) refl

module _ ⦃evictable : Evictable⦄ where
  open evictable use {IsValid, holds, erase, erase-IsValid, holds-erase}

  -- `c'` is `c` after the internal block `i` of block `k` has been handed out.
  pub record Acquired (k : ℕ) (uninitialized : Bool) (c : Cache) (i : ℕ) (c' : Cache) : Type 0 where
    pub consistent : Consistent c'
    pub internal : ((c'.swappable_blocks k).internal_data ≡ i) × (0 < i)
    pub counted :
        (c'.swappable_blocks k).reference_count ≡ (c.swappable_blocks k).reference_count + 1
    pub kept :
        (is_internal (c.swappable_blocks k) ≡ true)
          ⊎ ((is_initialized (c.swappable_blocks k) ≡ true) × (uninitialized ≡ false))
        → content k c' ≡ content k c
    pub other_counts :
        (j : ℕ)
        → j ≢ k
        → (c'.swappable_blocks j).reference_count ≡ (c.swappable_blocks j).reference_count
    pub other_contents : (j : ℕ) → j ≢ k → content j c' ≡ content j c
    pub same_data : has_data (c'.swappable_blocks k) ≡ has_data (c.swappable_blocks k)
    pub saved :
        uninitialized ≡ false
        → (is_internal (c.swappable_blocks k) ≡ true → Saved (c.swappable_blocks k) c.store)
        → Saved (c'.swappable_blocks k) c'.store
    pub acquired_disk :
        (j : ℕ)
        → 0 < (c.swappable_blocks j).reference_count
        → 0 < (c.swappable_blocks j).external_data
        → c'.store.disk (c.swappable_blocks j).external_data
          ≡ c.store.disk (c.swappable_blocks j).external_data
    pub acquired_stay :
        (j : ℕ)
        → j ≢ k
        → 0 < (c.swappable_blocks j).reference_count
        → c'.swappable_blocks j ≡ c.swappable_blocks j

  abbrev pub Acquires : ℕ → Bool → Cache → Option (ℕ × Cache) → Type 0
  Acquires k uninitialized c r =
      ((i : ℕ) × (c' : Cache) × (r ≡ some (i, c')) × Acquired k uninitialized c i c')
      ⊎ ((r ≡ none) × ((c.swappable_blocks k).internal_data ≡ 0) × (IsExhausted c ⊎ IsStuck c))

  -- Block `k`, which the container does not hold, is replaced by one that does not belong there.
  pub put-Consistent :
      (k : ℕ) (b : SwappableBlock) (c : Cache)
      → CacheBase c
      → QueuedBut k c
      → is_evictable b ≡ false
      → Fits k b c.free_internal_blocks c.next_internal c.swappable_blocks c.store.next_external
      → Consistent (set_block k b c)
  unfolding set_block
  put-Consistent k b c v q e f = record {
    base =
        Base-update c.free_internal_blocks c.next_internal c.swappable_blocks c.store.next_external
          v k b f;
    queued = record {
      valid = q.valid;
      exact =
          update-each (λ j x. holds j c.evictable_blocks ≡ evictable_count x) k b c.swappable_blocks
            (rw e q.absent) q.exact;
      clean =
          update-each (λ j x. Clean x c.store) k b c.swappable_blocks (λ y z. absurd (cc (y, e)))
            q.clean;
    };
  }

  pub acquire_at-run :
      (k : ℕ) (b : SwappableBlock) (c : Cache)
      → is_internal b ≡ true
      → acquire_at k b c
        ≡ some
            (b.internal_data, set_block k (record b { reference_count = b.reference_count + 1 }) c)
  unfolding acquire_at acquire_block get_internal_block
  acquire_at-run k b c h =
      let y : ltb 0 (b.reference_count + 1) ≡ true = ground arith in rw (h, y) refl

  -- The block is internal.
  pub held-Acquired :
      (k : ℕ) (uninitialized : Bool) (c c' : Cache)
      → CacheBase c
      → QueuedBut k c'
      → is_internal (c.swappable_blocks k) ≡ true
      → c'.free_internal_blocks ≡ c.free_internal_blocks
      → c'.next_internal ≡ c.next_internal
      → c'.swappable_blocks ≡ c.swappable_blocks
      → c'.store ≡ c.store
      → Acquired k uninitialized c (c.swappable_blocks k).internal_data (
          set_block k
            (record (c.swappable_blocks k) {
              reference_count = (c.swappable_blocks k).reference_count + 1;
            })
            c')
  unfolding set_block data_of
  held-Acquired k uninitialized c c' v q h ef en eb es =
      let b : SwappableBlock = record (c.swappable_blocks k) {
        reference_count = (c.swappable_blocks k).reference_count + 1;
      } in
      let p : 0 < (c.swappable_blocks k).internal_data = ground (arith, h) in
      let v' : CacheBase c' = rw (ef, en, eb, es) v in
      record {
        consistent = put-Consistent k b c' v' q (ground arith) (
            rw (ef, en, eb, es)
              (record {
                held_old = v.held_old k;
                held_not_free = v.held_not_free k;
                held_once = λ j n g s. n (sym (v.held_once k j g s));
                external_old = v.external_old k;
                external_once = λ j n g s. n (sym (v.external_once k j g s));
                dirty_internal = λ d. p;
                acquired_internal = λ d. p;
              }));
        internal = rw (update_self k b c'.swappable_blocks) (refl, p);
        counted = rw (update_self k b c'.swappable_blocks) refl;
        kept = λ o.
            ap (λ (x : SwappableBlock). data_of x c'.store) (update_self k b c'.swappable_blocks)
            ∙ ap (λ (s : Store). data_of (c.swappable_blocks k) s) es;
        other_counts = λ j n. rw (update_ne k b c'.swappable_blocks j n, eb) refl;
        other_contents = λ j n. rw (update_ne k b c'.swappable_blocks j n, eb, es) refl;
        same_data = rw (update_self k b c'.swappable_blocks) refl;
        saved = λ u m. rw (update_self k b c'.swappable_blocks, es) (m h);
        acquired_disk = λ j p x. rw es refl;
        acquired_stay = λ j n g.
            update_ne k b c'.swappable_blocks j n ∙ ap (λ (f : ℕ → SwappableBlock). f j) eb;
      }

  -- The block has got the internal block `i`.
  pub attached-Acquired :
      (k : ℕ) (uninitialized : Bool) (c : Cache) (i : ℕ) (c' : Cache) (b : SwappableBlock)
      (s : Store)
      → Got i c c'
      → (c.swappable_blocks k).internal_data ≡ 0
      → Stored i c'.store s
      → (c.swappable_blocks k).external_data ≡ b.external_data
      → b.internal_data ≡ i
      → b.reference_count ≡ (c.swappable_blocks k).reference_count + 1
      → ((is_initialized (c.swappable_blocks k) ≡ true) × (uninitialized ≡ false)
          → data_of b s ≡ content k c)
      → (uninitialized ≡ false → Saved b s)
      → has_data b ≡ has_data (c.swappable_blocks k)
      → Acquired k uninitialized c i (set_block k b (record c' { store = s }))
  unfolding set_block
  attached-Acquired k uninitialized c i c' b s g z t ex ei er dt sv hd =
      let same = g.not_internal_same k z in
      let l = g.loose in
      let v = g.consistent.base in
      let ex' : (c'.swappable_blocks k).external_data ≡ b.external_data =
        ap (λ (x : SwappableBlock). x.external_data) same ∙ ex in
      let c1 : Cache = record c' { store = s } in
      let v1 : CacheBase c1 = rw t.next v in
      let q1 : QueuedBut k c1 = record {
        valid = g.consistent.queued.valid;
        absent = ground (
          arith,
          g.consistent.queued.exact k,
          ap (λ (x : SwappableBlock). x.internal_data) same,
          z,
        );
        exact = λ j n. g.consistent.queued.exact j;
        clean = λ j n y d.
            let (p, m) = g.consistent.queued.clean j y d in
            (
              p,
              t.memory (c'.swappable_blocks j).internal_data (l.not_held j)
                  ∙ m
                  ∙ sym (t.disk (c'.swappable_blocks j).external_data),
            );
      } in
      record {
        consistent = put-Consistent k b c1 v1 q1 (ground (arith, er)) (record {
          held_old = rw ei l.old;
          held_not_free = λ p. rw ei l.not_free;
          held_once = λ j n p e. l.not_held j (sym e ∙ ei);
          external_old = omega (arith, v1.external_old k, ex');
          external_once =
              λ j n p e. n (sym (v1.external_once k j (omega (arith, ex', p)) (ex' ∙ e)));
          dirty_internal = λ d. rw ei l.positive;
          acquired_internal = λ d. rw ei l.positive;
        });
        internal = rw (update_self k b c'.swappable_blocks) (ei, l.positive);
        counted = rw (update_self k b c'.swappable_blocks) er;
        kept = λ o.
            rw (update_self k b c'.swappable_blocks)
              (elim o [ inl y ↦ absurd (ground (arith, y, z)) | inr h ↦ dt h ]);
        other_counts = λ j n. rw (update_ne k b c'.swappable_blocks j n) (g.same_count j);
        other_contents = λ j n.
            rw (update_ne k b c'.swappable_blocks j n) (
              Stored-data i (c'.swappable_blocks j) c'.store s t (l.not_held j) ∙ g.same_content j);
        same_data = rw (update_self k b c'.swappable_blocks) hd;
        saved = λ u m. rw (update_self k b c'.swappable_blocks) (sv u);
        acquired_disk =
            λ j p x. t.disk (c.swappable_blocks j).external_data ∙ g.acquired_disk j p x;
        acquired_stay = λ j n p. update_ne k b c'.swappable_blocks j n ∙ g.acquired_same j p;
      }
