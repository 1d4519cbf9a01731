-- ===== src/Mng/BufferedWriter.antt =====
-- `buffered_writer` (foxxll/mng/buf_writer.hpp): blocks are collected in batches and written in the
-- order of their offsets. A buffer is known by its index.
pub mod Buffers
pub mod Handing
pub mod Sorted
pub mod Tests
use foxxll.Prelude.{
  ℕ, zero, suc, ◌+◌, Bool, true, false, List, [], ◌∷◌, ◌++◌, Option, none, some, ltb, leb,
  if◌then◌else◌, length, ℤ, to_int64, less,
}
use foxxll.Mng.Bid.{Bid}
use foxxll.Mng.Pools.{pop_back}

-- `batch_entry`, whose offset is an `int64_t` made of the `uint64_t` of the identifier, with the identifier that `write_bids` has for the buffer.
pub record BatchEntry : Type 0 where
  pub offset : ℤ
  pub ibuffer : ℕ
  pub bid : Bid

-- `batch` lists the priority queue from its top on; `written` records the writes that were started.
pub record BufferedWriter : Type 0 where
  pub nwriteblocks : ℕ
  pub writebatchsize : ℕ
  pub free_write_blocks : List ℕ
  pub busy_write_blocks : List ℕ
  pub batch : List BatchEntry
  pub written : List BatchEntry

-- i, i + 1, ..., of which there are n.
unfoldable pub indices : ℕ → ℕ → List ℕ
indices zero i = []
indices (suc n) i = i ∷ indices n (i + 1)

unfoldable pub create : ℕ → ℕ → BufferedWriter
create write_buf_size write_batch_size =
    let n = if ltb 2 write_buf_size then write_buf_size else 2 in
    record {
      nwriteblocks = n;
      writebatchsize = if ltb 0 write_batch_size then write_batch_size else 1;
      free_write_blocks = indices n 0;
      busy_write_blocks = [];
      batch = [];
      written = [];
    }

-- The first busy buffer whose request is done, and the others.
unfoldable pub first_done : (ℕ → Bool) → List ℕ → Option (ℕ × List ℕ)
first_done done [] = none
first_done done (b ∷ busy) =
    let later = first_done done busy in
    if done b
    then some (b, busy)
    else elim later [ none ↦ none | some (c, rest) ↦ some (c, b ∷ rest) ]

-- The loop that polls the busy buffers and frees the first one that is done.
unfoldable pub free_done : Option (ℕ × List ℕ) → BufferedWriter → BufferedWriter
free_done none w = w
free_done (some (b, busy)) w = record w {
  busy_write_blocks = busy;
  free_write_blocks = w.free_write_blocks ++ b ∷ [];
}

-- `wait_any` of the busy buffers: `none` is a wait that does not end.
unfoldable pub take_completed : Option (ℕ × List ℕ) → BufferedWriter → Option (ℕ × BufferedWriter)
take_completed none w = none
take_completed (some (b, busy)) w = some (b, record w { busy_write_blocks = busy })

unfoldable pub take_free :
    (ℕ → Bool) → Option (List ℕ × ℕ) → BufferedWriter → Option (ℕ × BufferedWriter)
take_free woken none w = take_completed (first_done woken w.busy_write_blocks) w
take_free woken (some (free, b)) w = some (b, record w { free_write_blocks = free })

-- What `poll` answers first, and which requests are done when `wait_any` returns.
unfoldable pub get_free_block :
    (ℕ → Bool) → (ℕ → Bool) → BufferedWriter → Option (ℕ × BufferedWriter)
get_free_block polled woken w =
    let w' = free_done (first_done polled w.busy_write_blocks) w in
    take_free woken (pop_back w'.free_write_blocks) w'

-- `push` of the priority queue, whose top has the smallest offset.
unfoldable pub push : BatchEntry → List BatchEntry → List BatchEntry
push e [] = e ∷ []
push e (f ∷ batch) =
    let later = push e batch in if less e.offset f.offset then e ∷ f ∷ batch else f ∷ later

-- The loop that empties the batch. It waits for an older request of the buffer, if there is one.
unfoldable pub write_batch : List BatchEntry → BufferedWriter → BufferedWriter
write_batch [] w = record w { batch = [] }
write_batch (e ∷ batch) w = write_batch batch (record w {
  busy_write_blocks = w.busy_write_blocks ++ e.ibuffer ∷ [];
  written = w.written ++ e ∷ [];
})

unfoldable pub flush_full : BufferedWriter → BufferedWriter
flush_full w = if leb w.writebatchsize (length w.batch) then write_batch w.batch w else w

unfoldable pub add_entry : BatchEntry → BufferedWriter → BufferedWriter
add_entry e w = record w { batch = push e w.batch }

unfoldable pub write :
    (ℕ → Bool) → (ℕ → Bool) → ℕ → Bid → BufferedWriter → Option (ℕ × BufferedWriter)
write polled woken filled bid w = get_free_block polled woken (
    add_entry (record { offset = to_int64 bid.offset; ibuffer = filled; bid = bid }) (flush_full w))

-- Every request that was started is waited for, and every buffer is free.
unfoldable pub all_free : BufferedWriter → BufferedWriter
all_free w = record w { free_write_blocks = indices w.nwriteblocks 0; busy_write_blocks = [] }

unfoldable pub flush : BufferedWriter → BufferedWriter
flush w = all_free (write_batch w.batch w)
