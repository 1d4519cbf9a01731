-- ===== src/Mng/BlockPrefetcher/Tests.antt =====
-- Runs of the prefetcher: three blocks are read with two buffers.
use foxxll.Prelude.{ℕ, ◌+◌, ◌*◌, ◌≡◌, refl, none, some, ◌==◌, if◌then◌else◌, [], ◌∷◌, arith}
use foxxll.Mng.BlockPrefetcher.{
  Plan, read_into, start_reads, create, wait, pull_block, read_next, empty, block_consumed, read_on,
  read_all,
}
use foxxll.Mng.BlockPrefetcher.Ahead.{Schedule}
use foxxll.Mng.BlockPrefetcher.Order.{items, read_all-items}

program : Unit {0}
unfolding read_into start_reads create wait pull_block read_next empty block_consumed read_on
    read_all items
program = tt

abbrev contents : ℕ → ℕ
contents bid = bid * 10

-- Blocks 0 and 1 change places.
abbrev swapped : ℕ → ℕ
swapped k = if k == 0 then 1 else if k == 1 then 0 else k

abbrev plan : Plan
plan = record { consume_seq = λ k. k + 5; seq_length = 3; prefetch_seq = swapped; nreadblocks = 2 }

plan_run : read_all contents plan 4 ≡ some (50 ∷ 60 ∷ 70 ∷ [])
unfolding program
plan_run = refl

-- Block 0 comes last, and the reader waits for it.
abbrev too_late : Plan
too_late = record plan { prefetch_seq = λ k. if k == 2 then 0 else k + 1 }

too_late_run : read_all contents too_late 4 ≡ none
unfolding program
too_late_run = refl

plan-Schedule : Schedule plan
plan-Schedule = record {
  position = swapped;
  some_buffers = omega arith;
  few_buffers = omega arith;
  position_low = λ k h. ground (arith, h);
  block_low = λ j h. ground (arith, h);
  block_at = λ k h. ground arith;
  position_of = λ j h. ground arith;
  early = λ k h. ground arith;
}

read_all-items_example : read_all contents plan (3 + 1) ≡ some (items contents plan 0 3)
read_all-items_example = read_all-items contents plan plan-Schedule
