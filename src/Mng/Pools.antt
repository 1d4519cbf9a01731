-- ===== src/Mng/Pools.antt =====
-- The pools of blocks (foxxll/mng/write_pool.hpp, prefetch_pool.hpp and read_write_pool.hpp): what
-- they use of the heap and of the I/O layer.
pub mod WritePool
pub mod PrefetchPool
pub mod ReadWritePool
pub mod Blocks
pub mod WriteLaws
pub mod StealLaws
pub mod PrefetchLaws
pub mod ReadAfterWrite
pub mod Tests
use foxxll.Prelude.{ℕ, ◌+◌, Bool, true, false, List, [], ◌∷◌, ◌++◌, Option, none, some}
use foxxll.Mng.Bid.{Bid}

-- `request::read_or_write`.
pub data Op : Type 0 where
  read_op write_op : Op

-- A `request_ptr` that is not empty. Requests are told apart by the order of their submission.
pub record Request : Type 0 where
  pub id : ℕ
  pub op : Op

-- What the pools ask of the I/O layer and of the heap. A block is a pointer, told apart by a number.
pub data Event : Type 0 where
  submit : Request → ℕ → Bid → Event
  cancels : Request → Event
  awaits : Request → Event
  deletes : ℕ → Event

-- The number of the next request and of the next block, and all events up to now.
pub record World : Type 0 where
  pub next_request : ℕ
  pub next_block : ℕ
  pub events : List Event

unfoldable pub emit : List Event → World → World
emit es w = record w { events = w.events ++ es }

-- `block->read(bid)` and `block->write(bid)`.
abbrev pub new_request : Op → World → Request
new_request op w = record { id = w.next_request; op = op }

unfoldable pub start : Op → ℕ → Bid → World → World
start op block bid w = record w {
  next_request = w.next_request + 1;
  events = w.events ++ submit (new_request op w) block bid ∷ [];
}

-- `new block_type`.
unfoldable pub allocate : World → World
allocate w = record w { next_block = w.next_block + 1 }

-- `list.back()` with `list.pop_back()`, undefined on an empty list.
abbrev pub pop_back {ℓ} : {A : Type ℓ} → List A → Option (List A × A)
pop_back [] = none
pop_back (x ∷ xs) = elim (pop_back xs) [ none ↦ some ([], x) | some r ↦ some (x ∷ r.0, r.1) ]
