-- ===== src/Mng/DiskAllocator/Valid.antt =====
-- The invariant of `disk_block_allocator` (foxxll/mng/disk_block_allocator.hpp), kept by
-- `delete_block`, `grow_file` and the constructor.
use foxxll.Prelude.{
  ℕ, zero, suc, ◌+◌, ◌≤◌, ◌<◌, ◌≡◌, refl, ap, false, arith, ◌==◌, Bool-cases, inl, inr, ◌⊎◌, add64,
  u64_mod,
}
use foxxll.Mng.DiskAllocator.FreeSpace.Regions.{
  inside, regions_at, total_size, Fits, Fits-mono, total_size-le, regions_at-above,
}
use foxxll.Mng.Bid.{Bid}
use foxxll.Mng.DiskAllocator.{
  Allocator, Storage, Status, done, throws, io_error, add_free_region, count_growth, set_size,
  grow_file, delete_block,
}
use foxxll.Mng.DiskAllocator.AddRegion.{Added, Refused, add_free_region-Adds}

pub record IsValid (a : Allocator) : Type 0 where
  pub fits : Fits 0 a.free_space a.disk_bytes
  pub counted : total_size a.free_space ≡ a.free_bytes
  pub small : a.disk_bytes < u64_mod

pub free-le-disk : (a : Allocator) → IsValid a → a.free_bytes ≤ a.disk_bytes
free-le-disk a v = omega (arith, total_size-le a.disk_bytes a.free_space v.fits)

-- The block has become free and the invariant holds.
pub record Freed (bid : Bid) (a a' : Allocator) : Type 0 where
  pub valid : IsValid a'
  pub covers :
      (x : ℕ)
      → regions_at x a'.free_space ≡ regions_at x a.free_space + inside x bid.offset bid.size
  pub frees : a'.free_bytes ≡ a.free_bytes + bid.size
  pub disk : a'.disk_bytes ≡ a.disk_bytes

Added-total-le :
    (u pos size : ℕ) (a a' : Allocator) → Added u pos size a a' → total_size a.free_space + size ≤ u
Added-total-le u pos size a a' w = omega (arith, w.total, total_size-le u a'.free_space w.fits)

-- Deleting a block of the disk: a byte of it that is free already is found, and the call throws
-- `bad_ext_alloc` and changes nothing; otherwise it ends normally, the free bytes are those of
-- before and those of the block, and the invariant holds.
pub delete_block-Freed :
    (bid : Bid) (a : Allocator)
    → IsValid a
    → 0 < bid.size
    → bid.offset + bid.size ≤ a.disk_bytes
    → Refused bid.offset bid.size a (delete_block bid a)
      ⊎ ((a' : Allocator) × (delete_block bid a ≡ (done, a')) × Freed bid a a')
unfolding delete_block
delete_block-Freed bid a v some_bytes room =
    elim (add_free_region-Adds a.disk_bytes bid.offset bid.size v.small room some_bytes a v.fits) [
      | inl r ↦ inl r
      | inr (a', e, w) ↦
          let bound = Added-total-le a.disk_bytes bid.offset bid.size a a' w in
          let sum : a'.free_bytes ≡ a.free_bytes + bid.size =
            omega (arith, w.frees, v.counted, v.small, bound) in
          inr (
            a',
            e,
            record {
              valid = record {
                fits = rw w.disk w.fits;
                counted = omega (arith, w.total, v.counted, sum);
                small = rw w.disk v.small;
              };
              covers = w.covers;
              frees = sum;
              disk = w.disk;
            },
          )
    ]

-- The new bytes at the end of the disk are free, and the file has the size of the disk.
pub record Grown (extend : ℕ) (a a' : Allocator) : Type 0 where
  pub valid : IsValid a'
  pub covers :
      (x : ℕ)
      → regions_at x a'.free_space ≡ regions_at x a.free_space + inside x a.disk_bytes extend
  pub frees : a'.free_bytes ≡ a.free_bytes + extend
  pub disk : a'.disk_bytes ≡ a.disk_bytes + extend
  pub device : a'.storage.accepts ≡ a.storage.accepts
  pub grows : a'.autogrow ≡ a.autogrow

abbrev pub Grows : ℕ → Allocator → Status × Allocator → Type 0
Grows extend a r =
    ((a.storage.accepts (a.disk_bytes + extend) ≡ false) × (r ≡ (throws io_error, a)))
    ⊎ ((a' : Allocator) × (r ≡ (done, a')) × Grown extend a a')

same-Grown : (a : Allocator) → IsValid a → Grown 0 a a
same-Grown a v = record {
  valid = v;
  covers = λ x. ground arith;
  frees = omega arith;
  disk = omega arith;
  device = refl;
  grows = refl;
}

extend-Grown :
    (extend : ℕ) (a : Allocator)
    → IsValid a
    → 0 < extend
    → a.disk_bytes + extend < u64_mod
    → let s = set_size (a.disk_bytes + extend) a in
      (a' : Allocator) × (count_growth extend (add_free_region a.disk_bytes extend s) ≡ (done, a'))
      × Grown extend a a'
unfolding set_size count_growth
extend-Grown extend a v pos room =
    let u = a.disk_bytes + extend in
    let s = set_size u a in
    elim (add_free_region-Adds u a.disk_bytes extend room (omega arith) pos s wide) [
      | inl r ↦ absurd (
          ground
            (arith, r.freed, r.free, regions_at-above r.byte 0 a.disk_bytes a.free_space v.fits))
      | inr (b, e, w) ↦
          let bound = Added-total-le u a.disk_bytes extend s b w in
          let sum : b.free_bytes ≡ a.free_bytes + extend =
            omega (arith, w.frees, v.counted, bound) in
          let size : add64 b.disk_bytes extend ≡ a.disk_bytes + extend = omega (arith, w.disk) in
          (
            record b { disk_bytes = add64 b.disk_bytes extend },
            rw e refl,
            record {
              valid = record {
                fits = rw size w.fits;
                counted = omega (arith, w.total, v.counted, sum);
                small = rw size room;
              };
              covers = w.covers;
              frees = sum;
              disk = size;
              device = ap (λ (f : Storage). f.accepts) w.file;
              grows = w.grows;
            },
          )
    ]
  where
    wide : Fits 0 a.free_space (a.disk_bytes + extend)
    wide =
        Fits-mono 0 0 a.disk_bytes (a.disk_bytes + extend) a.free_space (omega arith) (omega arith)
          v.fits

-- Growing the file: where the device refuses the new size the call throws `io_error` and changes
-- nothing; otherwise exactly the new bytes have become free and the invariant holds.
pub grow_file-Grows :
    (extend : ℕ) (a : Allocator)
    → IsValid a
    → a.disk_bytes + extend < u64_mod
    → Grows extend a (grow_file extend a)
unfolding grow_file
grow_file-Grows zero a v room = inr (a, refl, same-Grown a v)
grow_file-Grows (suc k) a v room =
    let exact : add64 a.disk_bytes (suc k) ≡ a.disk_bytes + suc k = omega arith in
    let nonzero : (suc k == 0) ≡ false = ground arith in
    rw (nonzero, exact)
      (elim (Bool-cases (a.storage.accepts (a.disk_bytes + suc k))) [
        | inl yes_ ↦ rw yes_ (inr (extend-Grown (suc k) a v (omega arith) room))
        | inr no_ ↦ inl (no_, rw no_ refl)
      ])
