-- ===== src/Mng/DiskAllocator/Promise.antt =====
-- What callers of `new_blocks` (foxxll/mng/disk_block_allocator.hpp) rely on.
use foxxll.Prelude.{
  ℕ, ◌+◌, ◌*◌, ◌≤◌, ◌<◌, ◌≡◌, refl, ◌∙◌, ap, sym, true, false, List, arith, inl, inr, ◌⊎◌, length,
  u64_mod,
}
use foxxll.Mng.DiskAllocator.FreeSpace.Regions.{regions_at}
use foxxll.Mng.Bid.{Bid}
use foxxll.Mng.DiskAllocator.{Allocator, done, throws, bad_ext_alloc, delete_blocks, grow_file}
use foxxll.Mng.DiskAllocator.NewBlocks.{
  Outcome, ensure_free, proceed, attempt, new_blocks_fuel, new_blocks,
}
use foxxll.Mng.DiskAllocator.Valid.{IsValid, Grown, grow_file-Grows}
use foxxll.Mng.DiskAllocator.Carve.{blocks_at, sizes, requested_size-eq}
use foxxll.Mng.DiskAllocator.Takes.{Success, Allocates, Positive, Covered}
use foxxll.Mng.DiskAllocator.Delete.{Within, placed_apart, placed_Within, placed_round_trip}
use foxxll.Mng.DiskAllocator.Prepare.{
  Grown-Prepared, Prepared-Allocates, none-Failure, Prepared-refl,
}
use foxxll.Mng.DiskAllocator.Allocates.{Covered-Allocates, new_blocks_fuel-Allocates}

-- A request that the disk can take without its size reaching 2^64.
pub record Request (bids : List Bid) (a : Allocator) : Type 0 where
  pub nonempty : 0 < length bids
  pub positive : Positive bids
  pub valid : IsValid a
  pub room : a.disk_bytes + 2 * sizes bids < u64_mod

-- The first test throws: too few free bytes, on a disk that may not grow.
abbrev pub OutOfSpace : List Bid → Allocator → Outcome → Type 0
OutOfSpace bids a r =
    (a.free_bytes < sizes bids) × (a.autogrow ≡ false) × (r ≡ (throws bad_ext_alloc, a, bids))

abbrev pub Promise : List Bid → Allocator → Outcome → Type 0
Promise bids a r =
    OutOfSpace bids a r
    ⊎ (((sizes bids ≤ a.free_bytes) ⊎ (a.autogrow ≡ true)) × Allocates bids a (2 * sizes bids) r)

Request-Covered :
    (bids : List Bid) (a : Allocator) → Request bids a → sizes bids ≤ a.free_bytes → Covered bids a
Request-Covered bids a q h = record {
  nonempty = q.nonempty;
  positive = q.positive;
  valid = q.valid;
  free = h;
  room = omega (arith, q.room);
}

Grown-Covered :
    (bids : List Bid) (a b : Allocator) → Request bids a → Grown (sizes bids) a b → Covered bids b
Grown-Covered bids a b q g = record {
  nonempty = q.nonempty;
  positive = q.positive;
  valid = g.valid;
  free = omega (arith, g.frees);
  room = omega (arith, g.disk, q.room);
}

ensure_free-cases :
    (n : ℕ) (a : Allocator)
    → ((a.free_bytes < n) × (a.autogrow ≡ false) × (ensure_free n a ≡ (throws bad_ext_alloc, a)))
      ⊎ (((n ≤ a.free_bytes) × (ensure_free n a ≡ (done, a)))
          ⊎ ((a.autogrow ≡ true) × (ensure_free n a ≡ grow_file n a)))
unfolding ensure_free
ensure_free-cases n a = ground arith

-- On a disk in order, for blocks that are not empty, `new_blocks` throws `bad_ext_alloc` and changes
-- nothing where the free bytes are too few and the disk may not grow. In every other case it either
-- fills in all offsets, with each byte that was free or new either in exactly one block or still
-- free, in order again and grown by at most twice the request; or the device has refused a size,
-- `io_error` is thrown, and the blocks placed until then stay taken.
pub new_blocks-Promise :
    (bids : List Bid) (a : Allocator) → Request bids a → Promise bids a (new_blocks bids a)
unfolding new_blocks new_blocks_fuel attempt proceed
new_blocks-Promise bids a q =
    let exact = requested_size-eq bids (omega (arith, q.room)) in
    let n = length bids in
    let after_grow = λ (b : Allocator) (c : Covered bids b).
      Covered-Allocates n (new_blocks_fuel n) bids b
        (λ bs d short e. new_blocks_fuel-Allocates n bs d short e) (omega arith) c in
    rw exact (elim (ensure_free-cases (sizes bids) a) [
      | inl (short, fixed, r) ↦ rw r (inl (short, fixed, refl))
      | inr (inl (enough, r)) ↦ rw r (
          inr (
            inl enough,
            Prepared-Allocates bids a a (sizes bids) (2 * sizes bids) _
                (Prepared-refl bids a q.valid) (omega arith)
                (after_grow a (Request-Covered bids a q enough)),
          ))
      | inr (inr (grows, r)) ↦ rw r (
          inr (
            inr grows,
            elim (grow_file-Grows (sizes bids) a q.valid (omega (arith, q.room))) [
              | inl (refuses, f) ↦ rw f (inr (none-Failure bids a _ q.valid refuses))
              | inr (b, f, g) ↦ rw f (
                  Prepared-Allocates bids a b (sizes bids) (2 * sizes bids) _
                    (Grown-Prepared (sizes bids) bids a b (omega arith) g) (omega (arith, g.disk))
                    (after_grow b (Grown-Covered bids a b q g)))
            ],
          ))
    ])

-- Enough free bytes, or leave to grow, and a device that takes every size: the call ends normally
-- with every block placed.
pub new_blocks-Success :
    (bids : List Bid) (a : Allocator)
    → Request bids a
    → ((sizes bids ≤ a.free_bytes) ⊎ (a.autogrow ≡ true))
    → ((n : ℕ) → a.storage.accepts n ≡ true)
    → Success bids a (2 * sizes bids) (new_blocks bids a)
new_blocks-Success bids a q enough takes = elim (new_blocks-Promise bids a q) [
  | inl (short, fixed, _) ↦ elim enough [ inl h ↦ absurd (omega arith) | inr h ↦ cc (h, fixed) ]
  | inr (_, result) ↦ elim result [ inl w ↦ w | inr f ↦ cc (f.refuses, takes f.refused) ]
]

module _ (bids placed : List Bid) (a b : Allocator) (q : Request bids a)
    (e : new_blocks bids a ≡ (done, b, placed)) where
  -- A call that ended normally has the outcome that the promise describes.
  done_Success :
      (s : Success bids a (2 * sizes bids) (new_blocks bids a)) × (s.after ≡ b)
      × (s.placed ≡ placed)
  done_Success = elim (new_blocks-Promise bids a q) [
    | inl (_, _, r) ↦ cc (r, e)
    | inr (_, result) ↦ elim result [
      | inl w ↦ (w, same_after w, same_placed w)
      | inr f ↦ cc (f.result, e)
    ]
  ]
    where
      same_after : (w : Success bids a (2 * sizes bids) (new_blocks bids a)) → w.after ≡ b
      same_after w = ap (λ (r : Outcome). r.1) (sym w.result ∙ e)

      same_placed : (w : Success bids a (2 * sizes bids) (new_blocks bids a)) → w.placed ≡ placed
      same_placed w = ap (λ (r : Outcome). r.2) (sym w.result ∙ e)

  -- The blocks that a call has placed lie on the disk; no byte is in two of them, and none of them
  -- holds a byte that is still counted as free.
  pub new_blocks-disjoint :
      Within b.disk_bytes placed × ((x : ℕ) → regions_at x b.free_space + blocks_at x placed ≤ 1)
  new_blocks-disjoint =
      let (w, after, same) = done_Success in
      rw (← after, ← same)
        (placed_Within a bids q.valid w q.positive, placed_apart a bids q.valid w)

  -- Blocks placed without growing the disk can be deleted, and the map of the free space and the
  -- count of the free bytes are then what they were before the allocation.
  pub new_blocks-delete_blocks :
      b.disk_bytes ≡ a.disk_bytes
      → (c : Allocator) × (delete_blocks placed b ≡ (done, c))
        × (c.free_space ≡ a.free_space)
        × (c.free_bytes ≡ a.free_bytes)
  new_blocks-delete_blocks still =
      let (w, after, same) = done_Success in
      rw (← after, ← same) (placed_round_trip a bids q.valid w q.positive (rw after still))
