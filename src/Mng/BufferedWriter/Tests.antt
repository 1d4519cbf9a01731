-- ===== src/Mng/BufferedWriter/Tests.antt =====
-- Runs of a writer of three buffers with batches of two, and its theorems at concrete inputs.
use foxxll.Prelude.{ℕ, ◌+◌, ◌^◌, ◌≡◌, refl, Bool, true, false, List, [], ◌∷◌, some, arith, to_int64}
use foxxll.Mng.Bid.{Bid}
use foxxll.Mng.Pools.Blocks.{one, occurs}
use foxxll.Mng.BufferedWriter.{
  BatchEntry, BufferedWriter, indices, create, first_done, free_done, take_completed, take_free,
  get_free_block, push, write_batch, flush_full, add_entry, write, all_free, flush,
}
use foxxll.Mng.BufferedWriter.Buffers.{owns, flush-write}
use foxxll.Mng.BufferedWriter.Sorted.{IsValid, write-IsValid}

-- What a run of the writer computes with.
program : Unit {0}
unfolding indices create first_done free_done take_completed take_free get_free_block push
    write_batch flush_full add_entry write all_free flush
program = tt

abbrev at : ℕ → Bid
at offset = record { storage = 1; offset = offset; size = 8 }

abbrev entry : ℕ → ℕ → BatchEntry
entry offset b = record { offset = to_int64 offset; ibuffer = b; bid = at offset }

abbrev writer : List ℕ → List ℕ → List BatchEntry → List BatchEntry → BufferedWriter
writer free busy batch written = record {
  nwriteblocks = 3;
  writebatchsize = 2;
  free_write_blocks = free;
  busy_write_blocks = busy;
  batch = batch;
  written = written;
}

abbrev always : ℕ → Bool
always b = true

abbrev never : ℕ → Bool
never b = false

-- The first buffer of a new writer is the last one of the free list.
first_buffer : get_free_block never always (create 3 2) ≡ some (2, writer (0 ∷ 1 ∷ []) [] [] [])
unfolding program
first_buffer = refl

-- The batch is full: its two entries are written, the smaller offset first.
abbrev full : BufferedWriter
full = writer [] [] (entry 8 1 ∷ entry 24 2 ∷ []) []

abbrev after : BufferedWriter
after = writer [] (2 ∷ []) (entry 16 0 ∷ []) (entry 8 1 ∷ entry 24 2 ∷ [])

writes_batch : write never always 0 (at 16) full ≡ some (1, after)
unfolding program
writes_batch = refl

full-IsValid : IsValid full
full-IsValid = record {
  sorted = (refl, (tt, tt));
  fits = omega arith;
  smaller = omega arith;
  one_held = refl;
  positive = omega arith;
}

write-IsValid_example :
    (b : ℕ) × (w' : BufferedWriter) × (write never always 0 (at 16) full ≡ some (b, w'))
    × IsValid w'
    × (w'.nwriteblocks ≡ 3)
write-IsValid_example = write-IsValid never always 0 (at 16) full full-IsValid (λ b. refl)

-- An offset of 2 ^ 63 or more is negative, and comes first.
negative : push (entry (2 ^ 63) 1) (entry 8 2 ∷ []) ≡ entry (2 ^ 63) 1 ∷ entry 8 2 ∷ []
unfolding program
negative = refl

-- Buffer 2 is written after a flush and handed out twice.
twice :
    write never always 2 (at 16) (flush (writer (0 ∷ 1 ∷ []) [] [] []))
    ≡ some (2, writer (0 ∷ 1 ∷ []) [] (entry 16 2 ∷ []) [])
unfolding program
twice = refl

flush-write_example :
    (occurs 2 (flush (writer (0 ∷ 1 ∷ []) [] [] [])).free_write_blocks ≡ 1)
    × (one 2 2 + owns 2 (writer (0 ∷ 1 ∷ []) [] (entry 16 2 ∷ []) []) ≡ 2)
flush-write_example =
    flush-write never always 2 (at 16) (writer (0 ∷ 1 ∷ []) [] [] []) 2
      (writer (0 ∷ 1 ∷ []) [] (entry 16 2 ∷ []) []) (omega arith) twice
