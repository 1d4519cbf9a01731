-- ===== src/Mng/DiskAllocator/Same.antt =====
-- Files and sizes of blocks over `new_blocks` of foxxll/mng/disk_block_allocator.hpp.
use foxxll.Prelude.{
  ℕ, zero, suc, ◌/◌, subst, Bool-cases, inl, inr, List, ◌++◌, Option, none, some, ltb, leb, length,
  take, drop, take-append-drop,
}
use foxxll.Mng.Bid.{Bid}
use foxxll.Mng.DiskAllocator.FreeSpace.{Place, first_fit}
use foxxll.Mng.DiskAllocator.{Allocator, Status, done, throws}
use foxxll.Mng.DiskAllocator.NewBlocks.{
  Outcome, requested_size, ensure_free, grow_for_one, carve, prepend, second_half, halve, place_at,
  place_blocks, proceed, attempt, new_blocks_fuel, new_blocks,
}
use foxxll.Mng.DiskAllocator.Carve.{SameBlocks, SameBlocks-refl, set_offsets-SameBlocks}
use foxxll.Mng.DiskAllocator.Takes.{SameBlocks-append}

-- The range of an outcome has the blocks of the range before.
abbrev Keeps : List Bid → Outcome → Type 0
Keeps bids r = SameBlocks bids (r.2)

carve-Keeps : (n : ℕ) (p : Place) (bids : List Bid) (a : Allocator) → Keeps bids (carve n p bids a)
unfolding carve
carve-Keeps n (p, s) bids a = elim (Bool-cases (leb n a.free_bytes)) [
  | inl y ↦ rw y (set_offsets-SameBlocks p bids)
  | inr f ↦ rw f (set_offsets-SameBlocks p bids)
]

second_half-Keeps :
    (rec : List Bid → Allocator → Outcome) (front rest : List Bid) (r : Outcome)
    → ((bs : List Bid) (b : Allocator) → Keeps bs (rec bs b))
    → Keeps front r
    → Keeps (front ++ rest) (second_half rec rest r)
unfolding second_half prepend
second_half-Keeps rec front rest (done, a, bids) h k =
    SameBlocks-append front bids rest ((rec rest a).2) k (h rest a)
second_half-Keeps rec front rest (throws e, a, bids) h k =
    SameBlocks-append front bids rest rest k (SameBlocks-refl rest)

halve-Keeps :
    (rec : List Bid → Allocator → Outcome) (bids : List Bid) (a : Allocator)
    → ((bs : List Bid) (b : Allocator) → Keeps bs (rec bs b))
    → Keeps bids (halve rec bids a)
unfolding halve
halve-Keeps rec bids a h = elim (Bool-cases (ltb 1 (length bids))) [
  | inl y ↦ rw y (
      let m = length bids / 2 in
      subst
        (λ (bs : List Bid). SameBlocks bs ((second_half rec (drop m bids) (rec (take m bids) a)).2))
        (take-append-drop m bids)
        (second_half-Keeps rec (take m bids) (drop m bids) (rec (take m bids) a) h
          (h (take m bids) a)))
  | inr f ↦ rw f (SameBlocks-refl bids)
]

place_at-Keeps :
    (rec : List Bid → Allocator → Outcome) (n : ℕ) (bids : List Bid) (p : Option Place)
    (a : Allocator)
    → ((bs : List Bid) (b : Allocator) → Keeps bs (rec bs b))
    → Keeps bids (place_at rec n bids p a)
unfolding place_at
place_at-Keeps rec n bids (some p) a h = carve-Keeps n p bids a
place_at-Keeps rec n bids none a h = halve-Keeps rec bids a h

proceed-Keeps :
    (bids : List Bid) (f : Allocator → Outcome) (s : Status × Allocator)
    → ((b : Allocator) → Keeps bids (f b))
    → Keeps bids (proceed bids f s)
unfolding proceed
proceed-Keeps bids f (done, a) h = h a
proceed-Keeps bids f (throws e, a) h = SameBlocks-refl bids

attempt-Keeps :
    (rec : List Bid → Allocator → Outcome) (bids : List Bid) (a : Allocator)
    → ((bs : List Bid) (b : Allocator) → Keeps bs (rec bs b))
    → Keeps bids (attempt rec bids a)
unfolding attempt place_blocks
attempt-Keeps rec bids a h =
    proceed-Keeps bids (λ a'. proceed bids (place_blocks rec bids) (grow_for_one bids a'))
      (ensure_free (requested_size bids) a)
      (λ b. proceed-Keeps bids (place_blocks rec bids) (grow_for_one bids b) (λ c.
        place_at-Keeps rec (requested_size bids) bids (first_fit (requested_size bids) c.free_space)
          c h))

new_blocks_fuel-Keeps :
    (n : ℕ) (bids : List Bid) (a : Allocator) → Keeps bids (new_blocks_fuel n bids a)
unfolding new_blocks_fuel
new_blocks_fuel-Keeps zero bids a = SameBlocks-refl bids
new_blocks_fuel-Keeps (suc n) bids a =
    attempt-Keeps (new_blocks_fuel n) bids a (λ bs b. new_blocks_fuel-Keeps n bs b)

pub new_blocks-SameBlocks :
    (bids : List Bid) (a : Allocator) → SameBlocks bids ((new_blocks bids a).2)
unfolding new_blocks
new_blocks-SameBlocks bids a = new_blocks_fuel-Keeps (suc (length bids)) bids a
