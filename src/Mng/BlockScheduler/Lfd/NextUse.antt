-- ===== src/Mng/BlockScheduler/Lfd/NextUse.antt =====
-- What `init` of the offline algorithm (foxxll/mng/block_scheduler.hpp) finds out of a prediction
-- sequence.
use foxxll.Prelude.{
  ℕ, ◌≡◌, refl, ap, ◌∙◌, Bool, true, false, List, [], ◌∷◌, ◌==◌, if◌then◌else◌, inl, inr,
  Bool-cases,
}
use foxxll.Mng.BlockScheduler.Lfd.{
  BlockOperation, op_acquire, op_acquire_uninitialized, op_release, op_release_dirty,
  op_deinitialize, op_initialize, op_extract_external_block, PredictionElement, Use,
  predict_operation, predict,
}

-- What the scheduler may know of a block from an operation on it; a release tells nothing.
abbrev pub use_of : BlockOperation → ℕ → Use → Use
use_of op_acquire time later = (true, time)
use_of op_acquire_uninitialized time later = (true, time)
use_of op_release time later = later
use_of op_release_dirty time later = later
use_of op_deinitialize time later = (false, 0)
use_of op_initialize time later = (false, 3)
use_of op_extract_external_block time later = (false, 2)

-- The first operation on block `k` that is no release.
unfoldable pub first_use : ℕ → List PredictionElement → Use
first_use k [] = (false, 1)
first_use k (e ∷ sequence) =
    let later = first_use k sequence in if k == e.id then use_of e.op e.time later else later

abbrev is_release : BlockOperation → Bool
is_release op_release = true
is_release op_release_dirty = true
is_release op_acquire = false
is_release op_acquire_uninitialized = false
is_release op_deinitialize = false
is_release op_initialize = false
is_release op_extract_external_block = false

-- For each release of the sequence, the first use of its block after it.
unfoldable pub uses_after : List PredictionElement → List Use
uses_after [] = []
uses_after (e ∷ sequence) =
    let rest = uses_after sequence in
    if is_release e.op then first_use e.id sequence ∷ rest else rest

step_next :
    (op : BlockOperation) (id time k : ℕ) (next : ℕ → Use) (uses : List Use)
    → (predict_operation op id time (next, uses)).0 k
      ≡ (if k == id then use_of op time (next k) else next k)
unfolding predict_operation
step_next op_acquire id time k next uses = refl
step_next op_acquire_uninitialized id time k next uses = refl
step_next op_release id time k next uses = elim (Bool-cases (k == id)) [
  | inl y ↦ rw y refl
  | inr n ↦ rw n refl
]
step_next op_release_dirty id time k next uses = elim (Bool-cases (k == id)) [
  | inl y ↦ rw y refl
  | inr n ↦ rw n refl
]
step_next op_deinitialize id time k next uses = refl
step_next op_initialize id time k next uses = refl
step_next op_extract_external_block id time k next uses = refl

step_uses :
    (op : BlockOperation) (id time : ℕ) (next : ℕ → Use) (uses : List Use)
    → (predict_operation op id time (next, uses)).1
      ≡ (if is_release op then next id ∷ uses else uses)
unfolding predict_operation
step_uses op_acquire id time next uses = refl
step_uses op_acquire_uninitialized id time next uses = refl
step_uses op_release id time next uses = refl
step_uses op_release_dirty id time next uses = refl
step_uses op_deinitialize id time next uses = refl
step_uses op_initialize id time next uses = refl
step_uses op_extract_external_block id time next uses = refl

predict-first_use :
    (k : ℕ) (sequence : List PredictionElement) → (predict sequence).0 k ≡ first_use k sequence
unfolding predict first_use
predict-first_use k [] = refl
predict-first_use k (e ∷ sequence) =
    step_next e.op e.id e.time k ((predict sequence).0) ((predict sequence).1)
    ∙ ap (λ (u : Use). if k == e.id then use_of e.op e.time u else u) (predict-first_use k sequence)

predict-uses : (sequence : List PredictionElement) → (predict sequence).1 ≡ uses_after sequence
unfolding predict uses_after
predict-uses [] = refl
predict-uses (e ∷ sequence) =
    step_uses e.op e.id e.time ((predict sequence).0) ((predict sequence).1)
    ∙ rw (predict-first_use e.id sequence, predict-uses sequence) refl

-- The loop from the end of the prediction sequence finds, for each block, its first operation that is
-- no release, and for each release of the sequence, in their order, the first such operation on the
-- released block that comes after it.
pub predict-uses_after :
    (sequence : List PredictionElement)
    → ((k : ℕ) → (predict sequence).0 k ≡ first_use k sequence)
      × ((predict sequence).1 ≡ uses_after sequence)
predict-uses_after sequence = ((λ k. predict-first_use k sequence), predict-uses sequence)
