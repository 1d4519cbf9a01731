-- ===== src/Mng/BlockScheduler/Simulation.antt =====
-- `block_scheduler_algorithm_simulation` (foxxll/mng/block_scheduler.hpp): it records the operations in a
-- prediction sequence, and moves no data.
pub mod Agrees
pub mod Tests
use foxxll.Prelude.{
  ℕ, ◌+◌, Bool, true, false, not, List, [], ◌∷◌, ◌++◌, ltb, if◌then◌else◌, update, add64, sub64,
}
use foxxll.Mng.BlockScheduler.Lfd.{
  BlockOperation, op_acquire, op_acquire_uninitialized, op_release, op_release_dirty,
  op_deinitialize, op_initialize, op_extract_external_block, PredictionElement, bit,
}

pub record Simulation : Type 0 where
  pub prediction_sequence : List PredictionElement
  pub time_count : ℕ
  pub last_op_release : Bool
  pub reference_counts : ℕ → ℕ

-- `init`: which blocks are initialized is taken from the scheduler.
unfoldable pub start : (ℕ → Bool) → Simulation
start initialized = record {
  prediction_sequence = [];
  time_count = 0;
  last_op_release = false;
  reference_counts = λ k. bit (initialized k);
}

-- `prediction_sequence.push_back`.
unfoldable pub push_back : BlockOperation → ℕ → Simulation → Simulation
push_back op k m = record m {
  prediction_sequence =
      m.prediction_sequence ++ record { op = op; id = k; time = m.time_count } ∷ [];
}

unfoldable pub acquire : ℕ → Bool → Simulation → Simulation
acquire k uninitialized m =
    push_back (if uninitialized then op_acquire_uninitialized else op_acquire) k (record m {
      reference_counts = update k (add64 (m.reference_counts k) 1) m.reference_counts;
      last_op_release = false;
    })

unfoldable pub release : ℕ → Bool → Simulation → Simulation
release k dirty m = push_back (if dirty then op_release_dirty else op_release) k (record m {
  reference_counts =
      update k (add64 (sub64 (m.reference_counts k) 1) (bit dirty)) m.reference_counts;
  time_count = add64 m.time_count (bit (not m.last_op_release));
  last_op_release = true;
})

unfoldable pub deinitialize : ℕ → Simulation → Simulation
deinitialize k m =
    push_back op_deinitialize k (record m { reference_counts = update k 0 m.reference_counts })

unfoldable pub initialize : ℕ → Simulation → Simulation
initialize k m =
    push_back op_initialize k (record m { reference_counts = update k 1 m.reference_counts })

-- The block that it returns is the invalid one.
unfoldable pub extract : ℕ → Simulation → Simulation
extract k m =
    push_back op_extract_external_block k
      (record m { reference_counts = update k 0 m.reference_counts })

abbrev pub is_initialized : ℕ → Simulation → Bool
is_initialized k m = ltb 0 (m.reference_counts k)

unfoldable pub explicit_timestep : Simulation → Simulation
explicit_timestep m = record m { time_count = add64 m.time_count 1 }
