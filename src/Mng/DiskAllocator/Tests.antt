-- ===== src/Mng/DiskAllocator/Tests.antt =====
-- Runs of the allocator on one disk, and its theorems at concrete inputs.
use foxxll.Prelude.{ℕ, ◌≡◌, refl, ◌⊎◌, true, List, [], ◌∷◌, arith}
use foxxll.Mng.DiskAllocator.FreeSpace.{seek, rewind, assign, erase, first_fit}
use foxxll.Mng.Bid.{Bid}
use foxxll.Mng.DiskAllocator.{
  Allocator, Storage, done, throws, bad_ext_alloc, pred_of, pred_overlaps, succ_overlaps,
  coalesce_pred, coalesce_succ, coalesce, store_region, store_coalesced, add_at, is_empty,
  add_free_region, count_growth, set_size, grow_file, create, destroy, delete_block, and_then,
  delete_blocks,
}
use foxxll.Mng.DiskAllocator.AddRegion.{Refused, Adds, add_free_region-Adds}
use foxxll.Mng.DiskAllocator.NewBlocks.{
  requested_size, ensure_free, grow_unless, grow_for_one, set_offsets, shrink_region, carve,
  prepend, second_half, halve, place_at, place_blocks, proceed, attempt, new_blocks_fuel,
  new_blocks,
}
use foxxll.Mng.DiskAllocator.Valid.{IsValid, Freed, delete_block-Freed}
use foxxll.Mng.DiskAllocator.Delete.{delete_block-delete_block}
use foxxll.Mng.DiskAllocator.Promise.{
  Request, Promise, new_blocks-Promise, new_blocks-delete_blocks,
}

-- What a run of the allocator computes with.
program : Unit {0}
unfolding seek rewind assign erase first_fit pred_of pred_overlaps succ_overlaps coalesce_pred
    coalesce_succ coalesce store_region store_coalesced add_at is_empty add_free_region count_growth
    set_size grow_file create destroy delete_block and_then delete_blocks requested_size ensure_free
    grow_unless grow_for_one set_offsets shrink_region carve prepend second_half halve place_at
    place_blocks proceed attempt new_blocks_fuel new_blocks
program = tt

abbrev device : Storage
device = record { size = 100; accepts = λ _. true }

-- Bytes 10 to 29 and 50 to 89 of a disk of 100 bytes are free.
abbrev split_disk : Allocator
split_disk = record {
  free_space = (10, 20) ∷ (50, 40) ∷ [];
  free_bytes = 60;
  disk_bytes = 100;
  cfg_bytes = 100;
  storage = device;
  autogrow = true;
}

abbrev block : ℕ → ℕ → Bid
block offset size = record { storage = 1; offset = offset; size = size }

split_disk-IsValid : IsValid split_disk
split_disk-IsValid = omega arith

-- The freed bytes join both neighbours.
joins_both : (add_free_region 30 20 split_disk).1.free_space ≡ (10, 80) ∷ []
unfolding program
joins_both = refl

-- Two blocks of 30 bytes fit one at a time: the second makes the disk grow.
halves_and_grows : new_blocks (block 0 30 ∷ block 0 30 ∷ []) split_disk ≡ (
  done,
  record split_disk {
    free_space = (10, 20) ∷ (80, 10) ∷ [];
    free_bytes = 30;
    disk_bytes = 130;
    storage = record device { size = 130 };
  },
  block 50 30 ∷ block 100 30 ∷ [],
)
unfolding program
halves_and_grows = refl

add_free_region-Adds_example : Adds 100 30 20 split_disk (add_free_region 30 20 split_disk)
add_free_region-Adds_example =
    add_free_region-Adds 100 30 20 (omega arith) (omega arith) (omega arith) split_disk
      split_disk-IsValid.fits

delete_block-Freed_example :
    Refused 25 30 split_disk (delete_block (block 25 30) split_disk)
    ⊎ ((a' : Allocator) × (delete_block (block 25 30) split_disk ≡ (done, a'))
        × Freed (block 25 30) split_disk a')
delete_block-Freed_example =
    delete_block-Freed (block 25 30) split_disk split_disk-IsValid (omega arith) (omega arith)

delete_block-delete_block_example :
    delete_block (block 30 20) (delete_block (block 30 20) split_disk).1
    ≡ (throws bad_ext_alloc, (delete_block (block 30 20) split_disk).1)
unfolding program
delete_block-delete_block_example =
    delete_block-delete_block (block 30 20) split_disk (delete_block (block 30 20) split_disk).1
      split_disk-IsValid (omega arith) (omega arith) refl

abbrev request : List Bid
request = block 0 15 ∷ block 0 15 ∷ []

request_fits : Request request split_disk
request_fits = omega arith

new_blocks-Promise_example : Promise request split_disk (new_blocks request split_disk)
new_blocks-Promise_example = new_blocks-Promise request split_disk request_fits

abbrev request_placed : List Bid
request_placed = block 50 15 ∷ block 65 15 ∷ []

abbrev request_done : Allocator
request_done = record split_disk { free_space = (10, 20) ∷ (80, 10) ∷ []; free_bytes = 30 }

request_run : new_blocks request split_disk ≡ (done, request_done, request_placed)
unfolding program
request_run = refl

new_blocks-delete_blocks_example :
    (c : Allocator) × (delete_blocks request_placed request_done ≡ (done, c))
    × (c.free_space ≡ split_disk.free_space)
    × (c.free_bytes ≡ split_disk.free_bytes)
new_blocks-delete_blocks_example =
    new_blocks-delete_blocks request request_placed split_disk request_done request_fits request_run
      refl
