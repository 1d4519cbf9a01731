-- ===== src/Mng/BlockManager/Tests.antt =====
-- Runs of the manager on two disks, the first of which is full, and its theorems at concrete inputs.
use foxxll.Prelude.{
  zero, suc, inl, inr, subst, ℕ, ◌+◌, ◌<◌, ◌≡◌, refl, true, false, List, [], ◌∷◌, some, arith,
  replicate, length, get_elem?,
}
use foxxll.Mng.DiskAllocator.FreeSpace.{seek, rewind, assign, erase, first_fit}
use foxxll.Mng.Bid.{Bid, valid}
use foxxll.Mng.DiskAllocator.{
  Allocator, Storage, done, throws, has_available_space, pred_of, pred_overlaps, succ_overlaps,
  coalesce_pred, coalesce_succ, coalesce, store_region, store_coalesced, add_at, is_empty,
  add_free_region,
}
use foxxll.Mng.DiskAllocator as DiskAllocator
use foxxll.Mng.DiskAllocator.NewBlocks.{
  requested_size, ensure_free, grow_unless, grow_for_one, set_offsets, shrink_region, carve,
  prepend, second_half, halve, place_at, place_blocks, proceed, attempt, new_blocks_fuel,
}
use foxxll.Mng.DiskAllocator.NewBlocks as NewBlocks
use foxxll.Mng.BlockManager.{
  Manager, create, available, has_space, find_disk, choose_disk, add_bytes, assign_disks, collect,
  pick, distribute, set_storage, count_sizes, store_disk, allocate_on, go_on, allocate_disks,
  update_maximum, new_blocks, release, delete_on, delete_block, then_delete, delete_blocks,
}
use foxxll.Mng.BlockManager.Ends.{Servable, Ready, new_blocks-Ends}
use foxxll.Mng.BlockManager.OneDisk.{Served}
use foxxll.Mng.BlockManager.Stored.{new_blocks-Served}
use foxxll.Mng.BlockManager.Accounts.{Accounted, new_blocks-Accounted}
use foxxll.Mng.BlockManager.Releases.{new_blocks-delete_blocks_zero}

-- What a run of the manager computes with.
program : Unit {0}
unfolding seek rewind assign erase first_fit pred_of pred_overlaps succ_overlaps coalesce_pred
    coalesce_succ coalesce store_region store_coalesced add_at is_empty add_free_region
    DiskAllocator.delete_block requested_size ensure_free grow_unless grow_for_one set_offsets
    shrink_region carve prepend second_half halve place_at place_blocks proceed attempt
    new_blocks_fuel NewBlocks.new_blocks has_available_space valid create available has_space
    find_disk choose_disk add_bytes assign_disks collect pick distribute set_storage count_sizes
    store_disk allocate_on go_on allocate_disks update_maximum new_blocks release delete_on
    delete_block then_delete delete_blocks
program = tt

abbrev disk : List (ℕ × ℕ) → ℕ → Allocator
disk free_space free = record {
  free_space = free_space;
  free_bytes = free;
  disk_bytes = 100;
  cfg_bytes = 100;
  storage = record { size = 100; accepts = λ _. true };
  autogrow = false;
}

abbrev manager : Manager
manager = create (disk [] 0 ∷ disk ((0, 100) ∷ []) 100 ∷ [])

abbrev wanted : List Bid
wanted =
    record { storage = 0; offset = 0; size = 30 }
    ∷ record { storage = 0; offset = 0; size = 40 }
    ∷ []

-- All blocks are meant for the first disk.
abbrev first_disk : ℕ → ℕ
first_disk i = 0

abbrev placed : List Bid
placed =
    record { storage = 2; offset = 0; size = 30 }
    ∷ record { storage = 2; offset = 30; size = 40 }
    ∷ []

abbrev later : Manager
later = record {
  block_allocators = disk [] 0 ∷ disk ((70, 30) ∷ []) 30 ∷ [];
  total_allocation = 70;
  current_allocation = 70;
  maximum_allocation = 70;
  discards = [];
}

goes_to_second : new_blocks first_disk 0 wanted manager ≡ (done, later, placed)
unfolding program
goes_to_second = refl

new_blocks-Served_example :
    (a' : Allocator) × (get_elem? later.block_allocators 1 ≡ some a')
    × Served 1
        (assign_disks first_disk manager.block_allocators 0 wanted
          (replicate (length manager.block_allocators) 0))
        wanted
        (disk ((0, 100) ∷ []) 100)
        a'
        placed
unfolding program
new_blocks-Served_example =
    new_blocks-Served first_disk 0 wanted manager later placed goes_to_second 1
      (disk ((0, 100) ∷ []) 100) refl

in_range : (k : ℕ) → first_disk k < length manager.block_allocators
unfolding program
in_range k = omega arith

new_blocks-Accounted_example : Accounted 70 manager later
unfolding program
new_blocks-Accounted_example =
    new_blocks-Accounted first_disk 0 wanted manager later placed in_range (omega arith)
      (omega arith) goes_to_second

abbrev equal_blocks : List Bid
equal_blocks =
    record { storage = 2; offset = 0; size = 35 }
    ∷ record { storage = 2; offset = 35; size = 35 }
    ∷ []

abbrev emptied : Manager
emptied = record later {
  block_allocators = disk [] 0 ∷ disk ((0, 100) ∷ []) 100 ∷ [];
  current_allocation = 0;
  discards = equal_blocks;
}

all_deleted : delete_blocks 35 equal_blocks later ≡ (done, emptied)
unfolding program
all_deleted = refl

new_blocks-delete_blocks_zero_example :
    (delete_blocks 0 placed later).1.current_allocation ≡ manager.current_allocation + 70
unfolding program
new_blocks-delete_blocks_zero_example =
    new_blocks-delete_blocks_zero first_disk 0 wanted manager later placed in_range (omega arith)
      (omega arith) goes_to_second

second_disk : Servable wanted (disk ((0, 100) ∷ []) 100)
second_disk = record { request = omega arith; enough = inl (omega arith); device = λ n. refl }

manager-Ready :
    Ready 2 0
      (assign_disks first_disk manager.block_allocators 0 wanted (replicate 2 0))
      wanted
      manager
unfolding program
manager-Ready zero a h k g = inl refl
manager-Ready (suc zero) a h k g =
    inr (subst (λ (x : Allocator). Servable wanted x) (cc) second_disk)
manager-Ready (suc (suc e)) a h k g = absurd (omega (arith, k))

new_blocks-Ends_example :
    (m' : Manager) × (bids' : List Bid) × (new_blocks first_disk 0 wanted manager
      ≡ (done, m', bids'))
unfolding program
new_blocks-Ends_example = new_blocks-Ends first_disk 0 wanted manager manager-Ready
