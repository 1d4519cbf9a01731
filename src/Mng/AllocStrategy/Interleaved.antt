-- ===== src/Mng/AllocStrategy/Interleaved.antt =====
-- The allocation strategies of foxxll/mng/block_alloc_strategy_interleaved.hpp, for the blocks of several
-- runs in turn.
pub mod Runs
use foxxll.Prelude.{ℕ, zero, suc, ◌+◌, ◌-◌, ◌/◌, ◌%◌, List, [], ◌∷◌, get_or, add64}
use foxxll.Mng.AllocStrategy.{identity_from}

-- The functors; `draws` are what a generator gives, one for each block or for each run, and `perms` are
-- the shuffled vectors.
pub data Interleaved : Type 0 where
  interleaved_striping : (nruns begin_disk diff : ℕ) → Interleaved
  interleaved_fully_random : (nruns begin_disk diff : ℕ) (draws : ℕ → ℕ) → Interleaved
  interleaved_simple_random : (nruns begin_disk diff : ℕ) (offsets : List ℕ) → Interleaved
  interleaved_random_cyclic : (nruns begin_disk diff : ℕ) (perms : List (List ℕ)) → Interleaved
  first_disk_only : (nruns begin_disk : ℕ) → Interleaved

abbrev pub vector_at : List (List ℕ) → ℕ → List ℕ
vector_at [] i = []
vector_at (v ∷ vs) zero = v
vector_at (v ∷ vs) (suc i) = vector_at vs i

-- `operator ()`.
unfoldable pub disk_of_run : Interleaved → ℕ → ℕ
disk_of_run (interleaved_striping nruns begin diff) i = begin + (i / nruns) % diff
disk_of_run (interleaved_fully_random nruns begin diff draws) i = begin + draws i % diff
disk_of_run (interleaved_simple_random nruns begin diff offsets) i =
    begin + add64 (i / nruns) (get_or offsets (i % nruns) 0) % diff
disk_of_run (interleaved_random_cyclic nruns begin diff perms) i =
    begin + get_or (vector_at perms (i % nruns)) ((i / nruns) % diff) 0
disk_of_run (first_disk_only nruns begin) i = begin

-- The loop of the constructor of `interleaved_simple_random`, from round `i` on.
unfoldable pub draw_offsets : ℕ → ℕ → ℕ → (ℕ → ℕ) → List ℕ
draw_offsets zero i diff draws = []
draw_offsets (suc n) i diff draws = draws i % diff ∷ draw_offsets n (i + 1) diff draws

unfoldable pub make_interleaved_simple_random : ℕ → ℕ → ℕ → (ℕ → ℕ) → Interleaved
make_interleaved_simple_random nruns begin diff draws =
    interleaved_simple_random nruns begin diff (draw_offsets nruns 0 diff draws)

-- The loop of the constructor of `interleaved_random_cyclic`; `shuffle i` is the shuffle of round `i`.
unfoldable pub shuffle_runs : ℕ → ℕ → ℕ → (ℕ → List ℕ → List ℕ) → List (List ℕ)
shuffle_runs zero i diff shuffle = []
shuffle_runs (suc n) i diff shuffle =
    shuffle i (identity_from diff 0) ∷ shuffle_runs n (i + 1) diff shuffle

unfoldable pub make_interleaved_random_cyclic : ℕ → ℕ → ℕ → (ℕ → List ℕ → List ℕ) → Interleaved
make_interleaved_random_cyclic nruns begin diff shuffle =
    interleaved_random_cyclic nruns begin diff (shuffle_runs nruns 0 diff shuffle)
