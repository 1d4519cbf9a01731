-- ===== src/Mng/BlockScheduler/Detach.antt =====
-- `detach_internal_block` and `clean_sync` of `swappable_block` (foxxll/mng/block_scheduler.hpp).
use foxxll.Prelude.{
  ℕ, ◌+◌, ◌<◌, ◌≡◌, ◌≢◌, refl, true, false, Option, none, some, ◌==◌, if◌then◌else◌, inl, inr, ◌⊎◌,
  arith, update, update_self, update_ne, Bool-cases,
}
use foxxll.Mng.BlockScheduler.{
  SwappableBlock, Store, is_internal, is_external, is_evictable, ensure_external, write_out,
  clean_sync, detach_internal_block,
}

-- The data of a block, wherever it is; none where it is not initialized.
unfoldable pub data_of : SwappableBlock → Store → Option ℕ
data_of b s =
    if is_internal b
    then some (s.memory b.internal_data)
    else if is_external b
    then some (s.disk b.external_data)
    else none

-- The block has lost its internal block, and is on disk if it was dirty.
pub record Detached (b : SwappableBlock) (s : Store) (b' : SwappableBlock) (s' : Store)
    : Type 0 where
  pub run : detach_internal_block b s ≡ some (b.internal_data, b', s')
  pub not_internal : b'.internal_data ≡ 0
  pub not_dirty : b'.dirty ≡ false
  pub same_count : b'.reference_count ≡ b.reference_count
  pub same_room : s'.has_room ≡ s.has_room
  pub same_memory : (i : ℕ) → s'.memory i ≡ s.memory i
  pub external :
      ((b'.external_data ≡ b.external_data) × (s'.next_external ≡ s.next_external))
      ⊎ ((b.external_data ≡ 0)
          × (b'.external_data ≡ s.next_external)
          × (s'.next_external ≡ s.next_external + 1))
  pub written :
      b.dirty ≡ true
      → 0 < s.next_external
      → (0 < b'.external_data) × (s'.disk b'.external_data ≡ s.memory b.internal_data)
  pub clean : b.dirty ≡ false → (b'.external_data ≡ b.external_data) × (s' ≡ s)
  pub other_disk : (e : ℕ) → e ≢ b'.external_data → s'.disk e ≡ s.disk e

detach_clean :
    (b : SwappableBlock) (s : Store)
    → is_evictable b ≡ true
    → b.dirty ≡ false
    → Detached b s (record b { internal_data = 0 }) s
unfolding detach_internal_block clean_sync
detach_clean b s e d = record {
  run = rw (e, d) refl;
  not_internal = refl;
  not_dirty = d;
  same_count = refl;
  same_room = refl;
  same_memory = λ i. refl;
  external = inl (refl, refl);
  written = λ t. cc;
  clean = λ t. (refl, refl);
  other_disk = λ x n. refl;
}

detach_written :
    (b : SwappableBlock) (s : Store)
    → is_evictable b ≡ true
    → b.dirty ≡ true
    → 0 < b.external_data
    → Detached b s
        (record b { internal_data = 0; dirty = false })
        (record s { disk = update b.external_data (s.memory b.internal_data) s.disk })
unfolding detach_internal_block clean_sync ensure_external write_out
detach_written b s e d h = record {
  run = ground (arith, e, d, h);
  not_internal = refl;
  not_dirty = refl;
  same_count = refl;
  same_room = refl;
  same_memory = λ i. refl;
  external = inl (refl, refl);
  written = λ t p. (h, update_self b.external_data (s.memory b.internal_data) s.disk);
  clean = λ t. cc;
  other_disk = λ x n. update_ne b.external_data (s.memory b.internal_data) s.disk x n;
}

detach_fresh :
    (b : SwappableBlock) (s : Store)
    → is_evictable b ≡ true
    → b.dirty ≡ true
    → b.external_data ≡ 0
    → s.has_room s.next_external ≡ true
    → Detached b s
        (record b { internal_data = 0; dirty = false; external_data = s.next_external })
        (record s {
          disk = update s.next_external (s.memory b.internal_data) s.disk;
          next_external = s.next_external + 1;
        })
unfolding detach_internal_block clean_sync ensure_external write_out
detach_fresh b s e d h room = record {
  run = ground (arith, e, d, h, room);
  not_internal = refl;
  not_dirty = refl;
  same_count = refl;
  same_room = refl;
  same_memory = λ i. refl;
  external = inr (h, refl, refl);
  written = λ t p. (p, update_self s.next_external (s.memory b.internal_data) s.disk);
  clean = λ t. cc;
  other_disk = λ x n. update_ne s.next_external (s.memory b.internal_data) s.disk x n;
}

-- The block has to be written to a new block on disk, and there is none to be had.
abbrev pub IsFull : SwappableBlock → Store → Type 0
IsFull b s = (b.dirty ≡ true) × (b.external_data ≡ 0) × (s.has_room s.next_external ≡ false)

detach_full :
    (b : SwappableBlock) (s : Store)
    → is_evictable b ≡ true
    → IsFull b s
    → detach_internal_block b s ≡ none
unfolding detach_internal_block clean_sync ensure_external
detach_full b s e (d, h, room) = rw (e, d, h, room) refl

pub detach_internal_block-Detached :
    (b : SwappableBlock) (s : Store)
    → is_evictable b ≡ true
    → ((b' : SwappableBlock) × (s' : Store) × Detached b s b' s')
      ⊎ ((detach_internal_block b s ≡ none) × IsFull b s)
detach_internal_block-Detached b s e = elim (Bool-cases b.dirty) [
  | inr d ↦ inl (_, _, detach_clean b s e d)
  | inl d ↦ elim (Bool-cases (b.external_data == 0)) [
    | inl z ↦
        let x : b.external_data ≡ 0 = ground (arith, z) in
        elim (Bool-cases (s.has_room s.next_external)) [
          | inl room ↦ inl (_, _, detach_fresh b s e d x room)
          | inr full ↦ inr (detach_full b s e (d, x, full), (d, x, full))
        ]
    | inr z ↦ inl (_, _, detach_written b s e d (ground (arith, z)))
  ]
]
