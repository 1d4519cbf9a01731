-- ===== src/Mng/DiskAllocator.antt =====
-- foxxll/mng/disk_block_allocator.hpp and .cpp: allocation of blocks on one disk.
-- Every method returns how it ended together with the state that it left behind, since an
-- exception does not undo what was done before it. Log output is left out; an `assert` that fails
-- is an error of its own.
pub mod FreeSpace
pub mod NewBlocks
pub mod Coalesce
pub mod AddRegion
pub mod Valid
pub mod Carve
pub mod Takes
pub mod Halve
pub mod Prepare
pub mod Allocates
pub mod Promise
pub mod Delete
pub mod Same
pub mod Tests
use foxxll.Prelude.{
  ℕ, zero, suc, ◌+◌, ◌-◌, ◌*◌, ◌/◌, Bool, true, false, not, List, [], ◌∷◌, ◌++◌, Option, none, some,
  ltb, leb, ◌==◌, ◌&&◌, ◌||◌, if◌then◌else◌, length, take, drop, add64, sub64,
}
use foxxll.Mng.Bid.{Bid}
use FreeSpace.{Place, Cursor, upper_bound, rewind, assign, erase, first_fit}

-- What the allocator uses of its `file`: the size that was set last, and which sizes the device
-- accepts; `set_size` throws `io_error` on the others.
pub record Storage : Type 0 where
  pub size : ℕ
  pub accepts : ℕ → Bool

pub record Allocator : Type 0 where
  pub free_space : List Place
  pub free_bytes : ℕ
  pub disk_bytes : ℕ
  pub cfg_bytes : ℕ
  pub storage : Storage
  pub autogrow : Bool

pub data Error : Type 0 where
  bad_ext_alloc io_error assertion out_of_fuel : Error

pub data Status : Type 0 where
  done : Status
  throws : Error → Status

-- `pred`: the entry in front of `succ`, or `succ` itself where that is the first.
unfoldable pub pred_of : List Place → List Place → Option Place
pred_of (e ∷ lo) hi = some e
pred_of [] (e ∷ hi) = some e
pred_of [] [] = none

unfoldable pub pred_overlaps : ℕ → Option Place → Bool
pred_overlaps pos none = false
pred_overlaps pos (some (p, s)) = leb p pos && ltb pos (add64 p s)

unfoldable pub succ_overlaps : ℕ → ℕ → List Place → Bool
succ_overlaps pos size [] = false
succ_overlaps pos size ((p, s) ∷ hi) = leb pos p && ltb p (add64 pos size)

-- The region being freed, with the entries on both sides of it that are not merged into it.
pub record Merge : Type 0 where
  pub lo : List Place
  pub hi : List Place
  pub pos : ℕ
  pub size : ℕ

unfoldable pub coalesce_pred : List Place → List Place → ℕ → ℕ → Merge
coalesce_pred [] hi pos size = record { lo = []; hi = hi; pos = pos; size = size }
coalesce_pred ((p, s) ∷ lo) hi pos size =
    if add64 p s == pos
    then record { lo = lo; hi = hi; pos = p; size = add64 size s }
    else record { lo = (p, s) ∷ lo; hi = hi; pos = pos; size = size }

unfoldable pub coalesce_succ : List Place → List Place → ℕ → ℕ → Merge
coalesce_succ lo [] pos size = record { lo = lo; hi = []; pos = pos; size = size }
coalesce_succ lo ((p, s) ∷ hi) pos size =
    if p == add64 pos size
    then record { lo = lo; hi = hi; pos = pos; size = add64 size s }
    else record { lo = lo; hi = (p, s) ∷ hi; pos = pos; size = size }

unfoldable pub is_empty : List Place → Bool
is_empty [] = true
is_empty (e ∷ m) = false

-- The branches on `succ == end()`, on `free_space_.size() > 1` and on `succ_is_not_the_first`;
-- `none` is the failed assertion for `pred == end()`.
unfoldable pub coalesce : List Place → List Place → ℕ → ℕ → Option Merge
unfolding coalesce_pred coalesce_succ is_empty
coalesce [] [] pos size = none
coalesce (e ∷ lo) [] pos size = some (coalesce_pred (e ∷ lo) [] pos size)
coalesce lo (e ∷ hi) pos size =
    let m = coalesce_succ lo (e ∷ hi) pos size in
    if ltb 1 (length lo + length (e ∷ hi))
    then (if not (is_empty lo) then some (coalesce_pred m.lo m.hi m.pos m.size) else some m)
    else some m

-- `free_space_[region_pos] = region_size; free_bytes_ += block_size;`
unfoldable pub store_region : ℕ → Merge → Allocator → Status × Allocator
store_region block_size m a = (
  done,
  record a {
    free_space = assign m.pos m.size (rewind m.lo m.hi);
    free_bytes = add64 a.free_bytes block_size;
  },
)

unfoldable pub store_coalesced : ℕ → Option Merge → Allocator → Status × Allocator
unfolding store_region
store_coalesced block_size none a = (throws assertion, a)
store_coalesced block_size (some m) a = store_region block_size m a

unfoldable pub add_at : ℕ → ℕ → Cursor → Allocator → Status × Allocator
unfolding pred_of pred_overlaps succ_overlaps coalesce store_coalesced
add_at pos size c a =
    if pred_overlaps pos (pred_of c.before c.after)
    then (throws bad_ext_alloc, a)
    else if succ_overlaps pos size c.after
    then (throws bad_ext_alloc, a)
    else store_coalesced size (coalesce c.before c.after pos size) a

unfoldable pub add_free_region : ℕ → ℕ → Allocator → Status × Allocator
unfolding add_at
add_free_region pos size a =
    if not (is_empty a.free_space)
    then add_at pos size (upper_bound pos a.free_space) a
    else store_region size (record { lo = []; hi = []; pos = pos; size = size }) a

-- After the file has been resized: an exception of `add_free_region` leaves `disk_bytes_` as it is.
unfoldable pub count_growth : ℕ → Status × Allocator → Status × Allocator
count_growth extend (done, a) = (done, record a { disk_bytes = add64 a.disk_bytes extend })
count_growth extend (throws e, a) = (throws e, a)

unfoldable pub set_size : ℕ → Allocator → Allocator
set_size size a = record a { storage = record { size = size; accepts = a.storage.accepts } }

unfoldable pub grow_file : ℕ → Allocator → Status × Allocator
grow_file extend a =
    if extend == 0
    then (done, a)
    else let size = add64 a.disk_bytes extend in
      if a.storage.accepts size
      then count_growth extend (add_free_region a.disk_bytes extend (set_size size a))
      else (throws io_error, a)

-- The constructor, on a file of the given size.
unfoldable pub create : Storage → ℕ → Bool → Status × Allocator
create storage size autogrow = grow_file size (record {
  free_space = [];
  free_bytes = 0;
  disk_bytes = 0;
  cfg_bytes = size;
  storage = storage;
  autogrow = autogrow;
})

-- The destructor shrinks the file to its configured size.
unfoldable pub destroy : Allocator → Status × Allocator
destroy a =
    if ltb a.cfg_bytes a.disk_bytes
    then (if a.storage.accepts a.cfg_bytes
        then (done, set_size a.cfg_bytes a)
        else (throws io_error, a))
    else (done, a)

unfoldable pub has_available_space : ℕ → Allocator → Bool
has_available_space bytes a = a.autogrow || leb bytes a.free_bytes

unfoldable pub used_bytes : Allocator → ℕ
used_bytes a = sub64 a.disk_bytes a.free_bytes

unfoldable pub delete_block : Bid → Allocator → Status × Allocator
delete_block bid a = add_free_region bid.offset bid.size a

-- Goes on after a step that may throw.
unfoldable pub and_then : (Allocator → Status × Allocator) → Status × Allocator → Status × Allocator
and_then f (done, a) = f a
and_then f (throws e, a) = (throws e, a)

unfoldable pub delete_blocks : List Bid → Allocator → Status × Allocator
delete_blocks [] a = (done, a)
delete_blocks (b ∷ bids) a = and_then (delete_blocks bids) (delete_block b a)
