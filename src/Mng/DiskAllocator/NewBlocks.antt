-- ===== src/Mng/DiskAllocator/NewBlocks.antt =====
-- `disk_block_allocator::new_blocks` of foxxll/mng/disk_block_allocator.hpp. The range of block
-- identifiers is a list, which comes back with the offsets filled in as far as the code got.
use foxxll.Prelude.{
  ℕ, zero, suc, ◌-◌, ◌/◌, not, List, [], ◌∷◌, ◌++◌, Option, none, some, ltb, leb, if◌then◌else◌,
  length, take, drop, add64,
}
use foxxll.Mng.DiskAllocator.FreeSpace.{Place, assign, erase, first_fit}
use foxxll.Mng.Bid.{Bid}
use foxxll.Mng.DiskAllocator.{
  Allocator, Status, done, throws, bad_ext_alloc, assertion, out_of_fuel, grow_file,
}

abbrev pub Outcome : Type 0
Outcome = Status × Allocator × List Bid

unfoldable pub requested_size : List Bid → ℕ
requested_size [] = 0
requested_size (b ∷ bids) = add64 b.size (requested_size bids)

-- The first test: too few free bytes are an error, or a reason to grow the file.
unfoldable pub ensure_free : ℕ → Allocator → Status × Allocator
ensure_free requested a =
    if ltb a.free_bytes requested
    then (if not a.autogrow then (throws bad_ext_alloc, a) else grow_file requested a)
    else (done, a)

unfoldable pub grow_unless : Option Place → ℕ → Allocator → Status × Allocator
grow_unless none size a = grow_file size a
grow_unless (some space) size a = (done, a)

-- `space == free_space_.end() && begin + 1 == end`: fragmentation, met by growing the file.
unfoldable pub grow_for_one : List Bid → Allocator → Status × Allocator
grow_for_one (b ∷ []) a = grow_unless (first_fit (requested_size (b ∷ [])) a.free_space) b.size a
grow_for_one bids a = (done, a)

unfoldable pub set_offsets : ℕ → List Bid → List Bid
set_offsets pos [] = []
set_offsets pos (b ∷ bids) = record b { offset = pos } ∷ set_offsets (add64 pos b.size) bids

-- Takes the front of the region, and puts back what is left of it.
unfoldable pub shrink_region : ℕ → Place → List Place → List Place
shrink_region requested (p, s) m =
    if ltb requested s then assign (add64 p requested) (s - requested) (erase p m) else erase p m

unfoldable pub carve : ℕ → Place → List Bid → Allocator → Outcome
carve requested (p, s) bids a =
    let m = shrink_region requested (p, s) a.free_space in
    if leb requested a.free_bytes
    then (
      done,
      record a { free_space = m; free_bytes = a.free_bytes - requested },
      set_offsets p bids,
    )
    else (throws assertion, record a { free_space = m }, set_offsets p bids)

unfoldable pub prepend : List Bid → Outcome → Outcome
prepend bs (st, a, bids) = (st, a, bs ++ bids)

unfoldable pub second_half : (List Bid → Allocator → Outcome) → List Bid → Outcome → Outcome
second_half rec rest (done, a, bids) = prepend bids (rec rest a)
second_half rec rest (throws e, a, bids) = (throws e, a, bids ++ rest)

-- No region is large enough: the two halves of the range are allocated one after the other.
unfoldable pub halve : (List Bid → Allocator → Outcome) → List Bid → Allocator → Outcome
halve rec bids a =
    let middle = length bids / 2 in
    if ltb 1 (length bids)
    then second_half rec (drop middle bids) (rec (take middle bids) a)
    else (throws assertion, a, bids)

unfoldable pub place_at :
    (List Bid → Allocator → Outcome) → ℕ → List Bid → Option Place → Allocator → Outcome
place_at rec requested bids (some space) a = carve requested space bids a
place_at rec requested bids none a = halve rec bids a

unfoldable pub place_blocks : (List Bid → Allocator → Outcome) → List Bid → Allocator → Outcome
place_blocks rec bids a =
    let requested = requested_size bids in
    place_at rec requested bids (first_fit requested a.free_space) a

-- The next step on the same range, unless the last one threw.
unfoldable pub proceed : List Bid → (Allocator → Outcome) → Status × Allocator → Outcome
proceed bids f (done, a) = f a
proceed bids f (throws e, a) = (throws e, a, bids)

unfoldable pub attempt : (List Bid → Allocator → Outcome) → List Bid → Allocator → Outcome
attempt rec bids a =
    proceed bids (λ a'. proceed bids (place_blocks rec bids) (grow_for_one bids a'))
      (ensure_free (requested_size bids) a)

-- The recursion, with a bound on its depth.
unfoldable pub new_blocks_fuel : ℕ → List Bid → Allocator → Outcome
new_blocks_fuel zero bids a = (throws out_of_fuel, a, bids)
new_blocks_fuel (suc fuel) bids a = attempt (new_blocks_fuel fuel) bids a

-- Each call halves the range, so a depth of its length is enough.
unfoldable pub new_blocks : List Bid → Allocator → Outcome
new_blocks bids a = new_blocks_fuel (suc (length bids)) bids a
