-- ===== src/Mng/DiskAllocator/Delete.antt =====
-- `delete_block` and `delete_blocks` of foxxll/mng/disk_block_allocator.hpp against `new_blocks`.
use foxxll.Prelude.{ℕ, ◌+◌, ◌-◌, ◌≤◌, ◌<◌, ◌≡◌, refl, ◌∙◌, ap, sym, List, [], ◌∷◌, arith, inl, inr}
use foxxll.Mng.DiskAllocator.FreeSpace.Regions.{regions_at, regions_at-le-one, regions_at-above}
use foxxll.Mng.DiskAllocator.FreeSpace.Canonical.{canonical}
use foxxll.Mng.Bid.{Bid}
use foxxll.Mng.DiskAllocator.{
  Allocator, Status, done, throws, bad_ext_alloc, delete_block, delete_blocks, and_then,
}
use foxxll.Mng.DiskAllocator.NewBlocks.{Outcome}
use foxxll.Mng.DiskAllocator.Valid.{IsValid, delete_block-Freed}
use foxxll.Mng.DiskAllocator.Carve.{blocks_at, sizes, SameBlocks}
use foxxll.Mng.DiskAllocator.Takes.{Success, Positive}

-- Deleting a block a second time is detected: it throws and changes nothing.
pub delete_block-delete_block :
    (bid : Bid) (a a' : Allocator)
    → IsValid a
    → 0 < bid.size
    → bid.offset + bid.size ≤ a.disk_bytes
    → delete_block bid a ≡ (done, a')
    → delete_block bid a' ≡ (throws bad_ext_alloc, a')
delete_block-delete_block bid a a' v pos room e = elim (delete_block-Freed bid a v pos room) [
  | inl r ↦ cc (r.thrown)
  | inr (b, f, w) ↦
      let same : b ≡ a' = ap (λ (r : Status × Allocator). r.1) (sym f ∙ e) in
      rw (← same) (elim (delete_block-Freed bid b w.valid pos (rw w.disk room)) [
        | inl r ↦ r.thrown
        | inr (c, _, z) ↦ absurd (
            ground (
              arith,
              w.covers bid.offset,
              z.covers bid.offset,
              regions_at-le-one bid.offset 0 c.disk_bytes c.free_space z.valid.fits,
            ))
      ])
]

-- Blocks of the disk.
abbrev pub Within : ℕ → List Bid → Type 0
Within u [] = Unit {0}
Within u (b ∷ bids) = (b.offset + b.size ≤ u) × Within u bids

-- Every block is free again.
pub record Released (bids : List Bid) (a : Allocator) (r : Status × Allocator) : Type 0 where
  pub after : Allocator
  pub result : r ≡ (done, after)
  pub valid : IsValid after
  pub covers :
      (x : ℕ) → regions_at x after.free_space ≡ regions_at x a.free_space + blocks_at x bids
  pub frees : after.free_bytes ≡ a.free_bytes + sizes bids
  pub disk : after.disk_bytes ≡ a.disk_bytes

-- Blocks that share no byte with one another or with the free space can all be deleted: the call
-- ends normally, the free bytes are those of before and those of the blocks, and the invariant holds.
pub delete_blocks-Released :
    (bids : List Bid) (a : Allocator)
    → IsValid a
    → Positive bids
    → Within a.disk_bytes bids
    → ((x : ℕ) → regions_at x a.free_space + blocks_at x bids ≤ 1)
    → Released bids a (delete_blocks bids a)
unfolding delete_blocks and_then
delete_blocks-Released [] a v pos room apart = record {
  after = a;
  result = refl;
  valid = v;
  covers = λ x. omega arith;
  frees = omega arith;
  disk = refl;
}
delete_blocks-Released (b ∷ bids) a v pos room apart =
    elim (delete_block-Freed b a v pos.0 room.0) [
      | inl r ↦ absurd (omega (arith, r.freed, r.free, apart r.byte))
      | inr (a', e, w) ↦
          let t =
            delete_blocks-Released bids a' w.valid pos.1 (rw w.disk room.1)
              (λ x. omega (arith, w.covers x, apart x)) in
          record {
            after = t.after;
            result = rw (e, and_then) t.result;
            valid = t.valid;
            covers = λ x. omega (arith, t.covers x, w.covers x);
            frees = omega (arith, t.frees, w.frees);
            disk = t.disk ∙ w.disk;
          }
    ]

SameBlocks-Positive : (bs cs : List Bid) → SameBlocks bs cs → Positive bs → Positive cs
SameBlocks-Positive [] [] h p = tt
SameBlocks-Positive [] (c ∷ cs) h p = absurd h
SameBlocks-Positive (b ∷ bs) [] h p = absurd h
SameBlocks-Positive (b ∷ bs) (c ∷ cs) h p =
    (omega (arith, h.1, p.0), SameBlocks-Positive bs cs h.2 p.1)

-- Blocks whose bytes all lie below `u`.
below_Within :
    (u : ℕ) (bids : List Bid)
    → Positive bids
    → ((x : ℕ) → u ≤ x → blocks_at x bids ≡ 0)
    → Within u bids
below_Within u [] p h = tt
below_Within u (b ∷ bids) p h = (
  ground (arith, h (b.offset + b.size - 1)),
  below_Within u bids p.1 (λ x g. omega (arith, h x g)),
)

module _ (a : Allocator) (bids : List Bid) {limit : ℕ} {r : Outcome} (v : IsValid a)
    (w : Success bids a limit r) where
  -- A byte is in one block at most, and never in a block and free.
  pub placed_apart : (x : ℕ) → regions_at x w.after.free_space + blocks_at x w.placed ≤ 1
  placed_apart x = ground (
    arith,
    w.takes.covers x,
    regions_at-le-one x 0 a.disk_bytes a.free_space v.fits,
    regions_at-above x 0 a.disk_bytes a.free_space v.fits,
  )

  pub placed_Within : Positive bids → Within w.after.disk_bytes w.placed
  placed_Within p =
      below_Within w.after.disk_bytes w.placed (SameBlocks-Positive bids w.placed w.same p) λ x h.
        ground (
          arith,
          w.takes.covers x,
          w.takes.growth,
          regions_at-above x 0 a.disk_bytes a.free_space v.fits,
        )

  placed_Released : Positive bids → Released w.placed w.after (delete_blocks w.placed w.after)
  placed_Released p =
      delete_blocks-Released w.placed w.after w.takes.valid
        (SameBlocks-Positive bids w.placed w.same p) (placed_Within p) placed_apart

  -- Blocks that `new_blocks` placed without growing the disk can be deleted, and the map of the free
  -- space and the count of the free bytes are then what they were before the allocation.
  pub placed_round_trip :
      Positive bids
      → w.after.disk_bytes ≡ a.disk_bytes
      → (c : Allocator) × (delete_blocks w.placed w.after ≡ (done, c))
        × (c.free_space ≡ a.free_space)
        × (c.free_bytes ≡ a.free_bytes)
  placed_round_trip p still =
      let t = placed_Released p in
      (
        t.after,
        t.result,
        canonical 0 0 t.after.disk_bytes a.disk_bytes t.after.free_space a.free_space t.valid.fits
            v.fits (λ x. ground (arith, t.covers x, w.takes.covers x)),
        omega (arith, t.frees, w.takes.bytes),
      )
