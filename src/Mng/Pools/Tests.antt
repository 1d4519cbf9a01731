-- ===== src/Mng/Pools/Tests.antt =====
-- Runs of the pools, and their theorems at concrete inputs.
use foxxll.Prelude.{◌≡◌, refl, true, [], ◌∷◌, some, arith}
use foxxll.Mng.Bid.{Bid}
use foxxll.Mng.Pools.{World, read_op, write_op, emit, start, allocate}
use foxxll.Mng.Pools.WritePool
use foxxll.Mng.Pools.WritePool.{WritePool, Answers}
use foxxll.Mng.Pools.PrefetchPool
use foxxll.Mng.Pools.PrefetchPool.{PrefetchPool}
use foxxll.Mng.Pools.ReadWritePool
use foxxll.Mng.Pools.ReadWritePool.{ReadWritePool}
use foxxll.Mng.Pools.PrefetchLaws.{
  IsValid, HintDone, ReadDone, hint_from-HintDone, read_from-ReadDone,
}
use foxxll.Mng.Pools.ReadAfterWrite.{write-read}

-- What a run of the pools computes with.
program : Unit {0}
unfolding emit start allocate WritePool.size WritePool.reuses WritePool.stale_requests
    WritePool.retire WritePool.write WritePool.poll_any WritePool.wait_any WritePool.finished
    WritePool.unfinished WritePool.check_all_busy WritePool.serve_completed WritePool.steal_free
    WritePool.steal WritePool.is_requested WritePool.has_request WritePool.take_request
    WritePool.steal_request WritePool.add WritePool.enlarge WritePool.delete_stolen WritePool.shrink
    WritePool.resize PrefetchPool.lookup PrefetchPool.remove PrefetchPool.assign
    PrefetchPool.in_prefetching PrefetchPool.steal PrefetchPool.pop_free PrefetchPool.cache
    PrefetchPool.hint_exchange PrefetchPool.hint_popped PrefetchPool.hint_from PrefetchPool.settle
    PrefetchPool.invalidate_entry PrefetchPool.invalidate PrefetchPool.take_cached
    PrefetchPool.read_written PrefetchPool.read_from_entry PrefetchPool.read_from
    ReadWritePool.with_request ReadWritePool.rehint ReadWritePool.after_write ReadWritePool.write
    ReadWritePool.read
program = tt

abbrev start_world : World
start_world = record { next_request = 7; next_block = 100; events = [] }

abbrev here : Bid
here = record { storage = 1; offset = 4096; size = 4096 }

abbrev there : Bid
there = record { storage = 1; offset = 8192; size = 4096 }

-- Block 3 is free; block 5 is being written.
abbrev writing : WritePool
writing = record {
  free_blocks = 3 ∷ [];
  busy_blocks = record { block = 5; req = record { id = 4; op = write_op }; bid = there } ∷ [];
}

-- Block 9 is free; block 8 holds what was read from `here`.
abbrev reading : PrefetchPool
reading = record {
  free_blocks = 9 ∷ [];
  busy_blocks = record { bid = here; block = 8; req = record { id = 5; op = read_op } } ∷ [];
  free_blocks_size = 1;
}

abbrev pools : ReadWritePool
pools = record { w_pool = writing; p_pool = reading }

abbrev all_done : Answers
all_done = record { at_once = λ _. true; woken = λ _. true; later = λ _. true }

reading-IsValid : IsValid reading
reading-IsValid = record { counted = refl; once = λ b. ground arith }

abbrev written : WritePool
written = record {
  free_blocks = 3 ∷ [];
  busy_blocks =
      record {
        block = 5;
        req = record { id = 4; op = write_op };
        bid = record there { storage = 0 };
      }
      ∷ record { block = 6; req = record { id = 7; op = write_op }; bid = there }
      ∷ [];
}

write_run :
    (w : World) × (WritePool.write 6 there writing start_world
      ≡ some (record { id = 7; op = write_op }, written, w))
unfolding program
write_run = (_, refl)

steal_run :
    WritePool.steal all_done (record writing { free_blocks = [] })
    ≡ some (5, record { free_blocks = []; busy_blocks = [] })
unfolding program
steal_run = refl

shrink_run :
    (w : World) × (WritePool.resize (λ _. all_done) 1 writing start_world
      ≡ some (record writing { free_blocks = [] }, w))
unfolding program
shrink_run = (_, refl)

hint_from-HintDone_example :
    HintDone there reading writing start_world
      (PrefetchPool.hint_from there reading writing start_world)
hint_from-HintDone_example = hint_from-HintDone there reading writing start_world reading-IsValid

read_from-ReadDone_example :
    ReadDone 20 here reading writing (PrefetchPool.read_from 20 here reading writing start_world)
read_from-ReadDone_example = read_from-ReadDone 20 here reading writing start_world reading-IsValid

-- The stale copy in block 8 makes room for block 6.
abbrev rewritten : ReadWritePool
rewritten = record {
  w_pool = record {
    free_blocks = 3 ∷ 8 ∷ [];
    busy_blocks = record { block = 5; req = record { id = 4; op = write_op }; bid = there } ∷ [];
  };
  p_pool = record {
    free_blocks = 9 ∷ [];
    busy_blocks = record { bid = here; block = 6; req = record { id = 7; op = write_op } } ∷ [];
    free_blocks_size = 1;
  };
}

rewrite_run :
    (w : World) × (ReadWritePool.write 6 here pools start_world
      ≡ some (record { id = 7; op = write_op }, rewritten, w))
unfolding program
rewrite_run = (_, refl)

write-read_example :
    (ReadWritePool.read 21 here rewritten rewrite_run.0).0 ≡ (record { id = 7; op = write_op }, 6)
write-read_example =
    write-read 6 21 here pools rewritten start_world rewrite_run.0 _ (omega arith) reading-IsValid
      rewrite_run.1
