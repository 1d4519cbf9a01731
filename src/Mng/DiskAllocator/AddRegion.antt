-- ===== src/Mng/DiskAllocator/AddRegion.antt =====
-- `add_free_region` of foxxll/mng/disk_block_allocator.cpp: what it stores, and what it refuses.
use foxxll.Prelude.{
  ℕ, suc, ◌+◌, ◌≤◌, ◌<◌, ◌≡◌, refl, ap, sym, true, false, List, [], ◌∷◌, arith, ltb, Bool-cases,
  inl, inr, ◌⊎◌, length, add64, u64_mod,
}
use foxxll.Mng.DiskAllocator.FreeSpace.{Place, upper_bound, rewind, assign}
use foxxll.Mng.DiskAllocator.FreeSpace.Regions.{
  inside, regions_at, total_size, Fits, Left, Fits-mono, seek-Left, rewind-seek, regions_at-rewind,
  total_size-rewind, length-rewind, rewind-Fits, assign-rewind, assign-front,
}
use foxxll.Mng.DiskAllocator.{
  Allocator, Status, done, throws, bad_ext_alloc, Merge, pred_of, pred_overlaps, succ_overlaps,
  store_region, add_at, add_free_region, is_empty,
}
use foxxll.Mng.DiskAllocator.Coalesce.{Merged, Clear, coalesce-Merged}

-- The region has become free space and nothing else has changed.
pub record Added (u pos size : ℕ) (a a' : Allocator) : Type 0 where
  pub fits : Fits 0 a'.free_space u
  pub covers : (x : ℕ) → regions_at x a'.free_space ≡ regions_at x a.free_space + inside x pos size
  pub total : total_size a'.free_space ≡ total_size a.free_space + size
  pub frees : a'.free_bytes ≡ add64 a.free_bytes size
  pub disk : a'.disk_bytes ≡ a.disk_bytes
  pub cfg : a'.cfg_bytes ≡ a.cfg_bytes
  pub file : a'.storage ≡ a.storage
  pub grows : a'.autogrow ≡ a.autogrow

-- Some byte of the region is free already, and the call throws with the state unchanged.
pub record Refused (pos size : ℕ) (a : Allocator) (r : Status × Allocator) : Type 0 where
  pub byte : ℕ
  pub freed : inside byte pos size ≡ 1
  pub free : 0 < regions_at byte a.free_space
  pub thrown : r ≡ (throws bad_ext_alloc, a)

abbrev pub Adds : ℕ → ℕ → ℕ → Allocator → Status × Allocator → Type 0
Adds u pos size a r =
    Refused pos size a r ⊎ ((a' : Allocator) × (r ≡ (done, a')) × Added u pos size a a')

is_empty-cases :
    (m : List Place) → ((is_empty m ≡ true) × (m ≡ [])) ⊎ ((is_empty m ≡ false) × (0 < length m))
unfolding is_empty
is_empty-cases [] = inl (refl, refl)
is_empty-cases (e ∷ m) = inr (refl, omega arith)

module _ (u pos size : ℕ) (small : u < u64_mod) (room : pos + size ≤ u)
    (some_bytes : 0 < size) where
  store-Added :
      (a : Allocator) (lo hi : List Place) (m : Merge)
      → Merged u pos size lo hi m
      → a.free_space ≡ rewind lo hi
      → Added u pos size a (store_region size m a).1
  unfolding store_region
  store-Added a lo hi m w e =
      let stored : assign m.pos m.size (rewind m.lo m.hi) ≡ rewind m.lo ((m.pos, m.size) ∷ m.hi) =
        assign-rewind m.pos m.size m.lo m.hi _ m.pos w.behind (omega arith) (
          assign-front m.pos m.size u m.hi (
            Fits-mono (suc (m.pos + m.size)) (suc m.pos) u u m.hi (omega arith) (omega arith)
              w.ahead)) in
      record {
        fits = rw stored (
            rewind-Fits m.lo ((m.pos, m.size) ∷ m.hi) m.pos u w.behind (omega (arith, w.within))
              (omega arith, w.filled, w.within, w.ahead));
        covers = λ x.
            rw
              (
                stored,
                e,
                regions_at-rewind x m.lo ((m.pos, m.size) ∷ m.hi),
                regions_at-rewind x lo hi,
              )
              (omega (arith, w.covers x));
        total =
            rw (stored, e, total_size-rewind m.lo ((m.pos, m.size) ∷ m.hi), total_size-rewind lo hi)
              (omega (arith, w.total));
        frees = refl;
        disk = refl;
        cfg = refl;
        file = refl;
        grows = refl;
      }

  -- The two tests of the code find every overlap.
  pred_overlaps-cases :
      (lo hi : List Place)
      → Left pos u lo
      → Fits (suc pos) hi u
      → ((pred_overlaps pos (pred_of lo hi) ≡ true)
          × (inside pos pos size ≡ 1)
          × (0 < regions_at pos lo))
        ⊎ ((pred_overlaps pos (pred_of lo hi) ≡ false) × Clear lo pos)
  unfolding pred_overlaps pred_of
  pred_overlaps-cases [] [] left f = inr (refl, tt)
  pred_overlaps-cases [] ((p, s) ∷ hi) left f = inr (ground arith, tt)
  pred_overlaps-cases ((p, s) ∷ lo) hi left f = elim (Bool-cases (ltb pos (p + s))) [
    | inl e ↦ inl (ground arith, ground arith, ground arith)
    | inr e ↦ inr (ground arith, (ground arith, left.1, left.3))
  ]

  succ_overlaps-cases :
      (hi : List Place)
      → Fits (suc pos) hi u
      → ((succ_overlaps pos size hi ≡ true)
          × ((x : ℕ) × (inside x pos size ≡ 1) × (0 < regions_at x hi)))
        ⊎ ((succ_overlaps pos size hi ≡ false) × Fits (pos + size) hi u)
  unfolding succ_overlaps
  succ_overlaps-cases [] f = inr (refl, tt)
  succ_overlaps-cases ((p, s) ∷ hi) f = elim (Bool-cases (ltb p (pos + size))) [
    | inl e ↦ inl (ground arith, (p, ground arith, ground arith))
    | inr e ↦ inr (ground arith, (ground arith, f.1, f.2, f.3))
  ]

  add_at-Adds :
      (a : Allocator) (lo hi : List Place)
      → a.free_space ≡ rewind lo hi
      → 0 < length lo + length hi
      → Left pos u lo
      → Fits (suc pos) hi u
      → Adds u pos size a (add_at pos size (record { before = lo; after = hi }) a)
  unfolding add_at
  add_at-Adds a lo hi e some_entry left f = elim (pred_overlaps-cases lo hi left f) [
    | inl (over, own, free) ↦ inl (record {
      byte = pos;
      freed = own;
      free = rw (e, regions_at-rewind pos lo hi) (omega arith);
      thrown = rw over;
    })
    | inr (over, clear) ↦ elim (succ_overlaps-cases hi f) [
      | inl (over', (x, own, free)) ↦ inl (record {
        byte = x;
        freed = own;
        free = rw (e, regions_at-rewind x lo hi) (omega arith);
        thrown = rw (over, over');
      })
      | inr (over', ahead) ↦
          let (m, found, w) =
            coalesce-Merged u pos size small room some_bytes lo hi clear ahead some_entry in
          inr ((store_region size m a).1, rw (over, over', found) refl, store-Added a lo hi m w e)
    ]
  ]

  add_to_empty-Adds :
      (a : Allocator)
      → a.free_space ≡ []
      → Adds u pos size a
          (store_region size (record { lo = []; hi = []; pos = pos; size = size }) a)
  unfolding store_region rewind
  add_to_empty-Adds a e =
      let single : Merge = record { lo = []; hi = []; pos = pos; size = size } in
      inr (
        (store_region size single a).1,
        refl,
        store-Added a [] [] single
            (record {
              behind = tt;
              ahead = tt;
              within = room;
              filled = some_bytes;
              covers = λ x. refl;
              total = refl;
            })
            e,
      )

  upper_bound-Adds :
      (a : Allocator)
      → Fits 0 a.free_space u
      → 0 < length a.free_space
      → Adds u pos size a (add_at pos size (upper_bound pos a.free_space) a)
  unfolding rewind
  upper_bound-Adds a f some_entry =
      let c = upper_bound pos a.free_space in
      let same = rewind-seek pos [] a.free_space in
      let (left, _, ahead) = seek-Left pos u [] a.free_space tt f in
      add_at-Adds a c.before c.after (sym same)
        (omega (arith, length-rewind c.before c.after, ap length same)) left ahead

  -- On a map in order, `add_free_region` either finds a byte of the region that is free already, and
  -- throws `bad_ext_alloc` with the state unchanged, or ends normally with the region added to the
  -- free space: the map is in order again, covers the old bytes and the new ones, and holds `size`
  -- bytes more; `free_bytes_` grows by `size` and the other members keep their values.
  pub add_free_region-Adds :
      (a : Allocator) → Fits 0 a.free_space u → Adds u pos size a (add_free_region pos size a)
  unfolding add_free_region
  add_free_region-Adds a f = elim (is_empty-cases a.free_space) [
    | inl (e, none_free) ↦ rw e (add_to_empty-Adds a none_free)
    | inr (e, some_entry) ↦ rw e (upper_bound-Adds a f some_entry)
  ]
