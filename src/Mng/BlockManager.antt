-- ===== src/Mng/BlockManager.antt =====
-- `block_manager` (foxxll/mng/block_manager.hpp and .cpp): blocks on several disks, each with an
-- allocator of its own.
pub mod Choice
pub mod Collect
pub mod OneDisk
pub mod Stored
pub mod Ends
pub mod Accounts
pub mod Releases
pub mod Tests
use foxxll.Prelude.{
  ℕ, zero, suc, ◌+◌, ◌-◌, ◌%◌, Bool, true, false, not, List, [], ◌∷◌, ◌++◌, Option, none, some, map,
  ltb, leb, ◌==◌, if◌then◌else◌, length, get_elem?, set, replicate, add64, sub64,
}
use foxxll.Mng.Bid.{Bid, valid}
use foxxll.Mng.DiskAllocator.{Allocator, Status, done, throws, has_available_space}
use foxxll.Mng.DiskAllocator as DiskAllocator
use foxxll.Mng.DiskAllocator.NewBlocks as NewBlocks
use foxxll.Mng.DiskAllocator.NewBlocks.{Outcome}

-- The file of disk `d` is `d + 1`, as 0 is the null pointer; the other files have no allocator.
-- `discards` records the calls of `file::discard`.
pub record Manager : Type 0 where
  pub block_allocators : List Allocator
  pub total_allocation : ℕ
  pub current_allocation : ℕ
  pub maximum_allocation : ℕ
  pub discards : List Bid

-- The allocators that the constructor has made, before any block is allocated.
unfoldable pub create : List Allocator → Manager
create allocators = record {
  block_allocators = allocators;
  total_allocation = 0;
  current_allocation = 0;
  maximum_allocation = 0;
  discards = [];
}

unfoldable pub total_bytes : List Allocator → ℕ
total_bytes [] = 0
total_bytes (a ∷ as_) = add64 a.disk_bytes (total_bytes as_)

unfoldable pub free_bytes : List Allocator → ℕ
free_bytes [] = 0
free_bytes (a ∷ as_) = add64 a.free_bytes (free_bytes as_)

unfoldable pub available : Option Allocator → Option ℕ → ℕ → Bool
available (some a) (some bytes) size = has_available_space (add64 bytes size) a
available _ _ size = false

-- `block_allocators_[d]->has_available_space(disk_bytes[d] + bid->size)`.
unfoldable pub has_space : List Allocator → List ℕ → ℕ → ℕ → Bool
has_space allocators disk_bytes size d =
    available (get_elem? allocators d) (get_elem? disk_bytes d) size

-- The loop over `adv`, of which so many rounds are left.
unfoldable pub find_disk : ℕ → ℕ → (ℕ → Bool) → ℕ → ℕ → ℕ
find_disk zero adv has ndisks disk_id = disk_id
find_disk (suc n) adv has ndisks disk_id =
    let later = find_disk n (adv + 1) has ndisks disk_id in
    let try_disk_id = (disk_id + adv) % ndisks in if has try_disk_id then try_disk_id else later

unfoldable pub choose_disk : (ℕ → Bool) → ℕ → ℕ → ℕ
choose_disk has ndisks disk_id =
    if not (has disk_id) then find_disk (ndisks - 1) 1 has ndisks disk_id else disk_id

unfoldable pub add_bytes : Option ℕ → ℕ → ℕ → List ℕ → List ℕ
add_bytes (some bytes) d size disk_bytes = set disk_bytes d (add64 bytes size)
add_bytes none d size disk_bytes = disk_bytes

-- The first loop: the disk of each block. `disk_out[d]` are the places of `d` in the result.
unfoldable pub assign_disks : (ℕ → ℕ) → List Allocator → ℕ → List Bid → List ℕ → List ℕ
assign_disks functor allocators i [] disk_bytes = []
assign_disks functor allocators i (b ∷ bids) disk_bytes =
    let d = choose_disk (has_space allocators disk_bytes b.size) (length allocators) (functor i) in
    d
    ∷ assign_disks functor allocators (i + 1) bids
        (add_bytes (get_elem? disk_bytes d) d b.size disk_bytes)

-- `bids[i] = bid_begin[bid_perm[i]]`.
unfoldable pub collect : ℕ → List ℕ → List Bid → List Bid
collect d (c ∷ chosen) (b ∷ bids) =
    let rest = collect d chosen bids in if c == d then b ∷ rest else rest
collect d _ _ = []

unfoldable pub pick : Bool → Bid → List Bid → Bid × List Bid
pick true b (p ∷ placed) = (p, placed)
pick _ b placed = (b, placed)

-- `bid_begin[bid_perm[i]] = bids[i]`.
unfoldable pub distribute : ℕ → List ℕ → List Bid → List Bid → List Bid
distribute d (c ∷ chosen) (b ∷ bids) placed =
    let p = pick (c == d) b placed in p.0 ∷ distribute d chosen bids (p.1)
distribute d _ bids placed = bids

unfoldable pub set_storage : ℕ → List Bid → List Bid
set_storage d [] = []
set_storage d (b ∷ bids) = record b { storage = d + 1 } ∷ set_storage d bids

-- `total_allocation_ += bids[i].size` and the same for `current_allocation_`.
unfoldable pub count_sizes : List Bid → ℕ → ℕ
count_sizes [] n = n
count_sizes (b ∷ bids) n = count_sizes bids (add64 n b.size)

abbrev pub Result : Type 0
Result = Status × Manager × List Bid

unfoldable pub store_disk : ℕ → List ℕ → List Bid → Manager → Outcome → Result
store_disk d chosen bids m (done, a, placed) = (
  done,
  record m {
    block_allocators = set m.block_allocators d a;
    total_allocation = count_sizes placed m.total_allocation;
    current_allocation = count_sizes placed m.current_allocation;
  },
  distribute d chosen bids (set_storage d placed),
)
store_disk d chosen bids m (throws e, a, placed) =
    (throws e, record m { block_allocators = set m.block_allocators d a }, bids)

-- One round of the second loop, where the disk has blocks.
unfoldable pub allocate_on : Option Allocator → ℕ → List ℕ → List Bid → List Bid → Manager → Result
allocate_on (some a) d chosen (b ∷ mine) bids m =
    store_disk d chosen bids m (NewBlocks.new_blocks (b ∷ mine) a)
allocate_on _ d chosen mine bids m = (done, m, bids)

unfoldable pub go_on : (Manager → List Bid → Result) → Result → Result
go_on f (done, m, bids) = f m bids
go_on f (throws e, m, bids) = (throws e, m, bids)

-- The second loop, from disk `d`, with so many disks left.
unfoldable pub allocate_disks : ℕ → ℕ → List ℕ → List Bid → Manager → Result
allocate_disks zero d chosen bids m = (done, m, bids)
allocate_disks (suc n) d chosen bids m =
    go_on (λ m' bids'. allocate_disks n (d + 1) chosen bids' m')
      (allocate_on (get_elem? m.block_allocators d) d chosen (collect d chosen bids) bids m)

unfoldable pub update_maximum : Result → Result
update_maximum (done, m, bids) = (
  done,
  record m {
    maximum_allocation =
        if ltb m.maximum_allocation m.current_allocation
        then m.current_allocation
        else m.maximum_allocation;
  },
  bids,
)
update_maximum (throws e, m, bids) = (throws e, m, bids)

unfoldable pub new_blocks : (ℕ → ℕ) → ℕ → List Bid → Manager → Result
new_blocks functor alloc_offset bids m =
    let ndisks = length m.block_allocators in
    let chosen = assign_disks functor m.block_allocators alloc_offset bids (replicate ndisks 0) in
    update_maximum (allocate_disks ndisks 0 chosen bids m)

-- `delete_block` of `BID<BlockSize>`, behind its tests.
unfoldable pub release : ℕ → Bid → ℕ → Status × Allocator → Manager → Status × Manager
release block_size b d (done, a) m = (
  done,
  record m {
    block_allocators = set m.block_allocators d a;
    discards = m.discards ++ b ∷ [];
    current_allocation = sub64 m.current_allocation block_size;
  },
)
release block_size b d (throws e, a) m =
    (throws e, record m { block_allocators = set m.block_allocators d a })

unfoldable pub delete_on : ℕ → Bid → ℕ → Option Allocator → Manager → Status × Manager
delete_on block_size b d (some a) m = release block_size b d (DiskAllocator.delete_block b a) m
delete_on block_size b d none m = (done, m)

-- An invalid block, and one of a file without an allocator, are left alone.
unfoldable pub delete_block : ℕ → Bid → Manager → Status × Manager
delete_block block_size b m =
    if not (valid b)
    then (done, m)
    else delete_on block_size b (b.storage - 1) (get_elem? m.block_allocators (b.storage - 1)) m

unfoldable pub then_delete : (Manager → Status × Manager) → Status × Manager → Status × Manager
then_delete f (done, m) = f m
then_delete f (throws e, m) = (throws e, m)

unfoldable pub delete_blocks : ℕ → List Bid → Manager → Status × Manager
delete_blocks block_size [] m = (done, m)
delete_blocks block_size (b ∷ bids) m =
    then_delete (delete_blocks block_size bids) (delete_block block_size b m)
