-- ===== src/Mng/BlockScheduler/Lfd.antt =====
-- `block_scheduler_algorithm_offline_lfd` (foxxll/mng/block_scheduler.hpp): the priorities of evictable
-- blocks, from a prediction sequence.
pub mod NextUse
pub mod Container
pub mod Farthest
pub mod Algorithm
pub mod Tests
use foxxll.Prelude.{
  ℕ, ◌+◌, ◌-◌, ◌*◌, ◌%◌, Bool, true, false, not, List, [], ◌∷◌, ltb, ◌==◌, if◌then◌else◌, update,
  u64_mod,
}
use foxxll.Mng.BlockScheduler.{SwappableBlock, has_external_block}

pub data BlockOperation : Type 0 where
  op_acquire : BlockOperation
  op_acquire_uninitialized : BlockOperation
  op_release : BlockOperation
  op_release_dirty : BlockOperation
  op_deinitialize : BlockOperation
  op_initialize : BlockOperation
  op_extract_external_block : BlockOperation

pub record PredictionElement : Type 0 where
  pub op : BlockOperation
  pub id : ℕ
  pub time : ℕ

-- Whether the block is acquired next, and when; or else which operation is next.
abbrev pub Use : Type 0
Use = Bool × ℕ

-- A case of the switch in `init`: what is known of each block, and the uses after the releases.
unfoldable pub predict_operation :
    BlockOperation → ℕ → ℕ → (ℕ → Use) × List Use → (ℕ → Use) × List Use
predict_operation op_acquire id time (next, uses) = (update id (true, time) next, uses)
predict_operation op_acquire_uninitialized id time (next, uses) =
    (update id (true, time) next, uses)
predict_operation op_release id time (next, uses) = (next, next id ∷ uses)
predict_operation op_release_dirty id time (next, uses) = (next, next id ∷ uses)
predict_operation op_deinitialize id time (next, uses) = (update id (false, 0) next, uses)
predict_operation op_initialize id time (next, uses) = (update id (false, 3) next, uses)
predict_operation op_extract_external_block id time (next, uses) = (update id (false, 2) next, uses)

-- The loop of `init`, which goes through the sequence from its end.
unfoldable pub predict : List PredictionElement → (ℕ → Use) × List Use
predict [] = ((λ k. (false, 1)), [])
predict (e ∷ sequence) = predict_operation e.op e.id e.time (predict sequence)

abbrev pub bit : Bool → ℕ
bit true = 1
bit false = 0

-- The constructor of `priority`. The lower bits are free after the shift, so `|=` adds them; all ones
-- shifted by two are 2 ^ 64 - 4.
unfoldable pub priority : SwappableBlock → Use → ℕ
priority b (true, time) = (time * 4) % u64_mod + bit (not b.dirty) * 2 + bit (has_external_block b)
priority b (false, code) = u64_mod - 4 + code % 4

-- `priority::operator <`: less is evicted earlier.
abbrev pub evicted_before : ℕ → ℕ → Bool
evicted_before p right = ltb right p
