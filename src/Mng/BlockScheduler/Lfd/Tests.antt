-- ===== src/Mng/BlockScheduler/Lfd/Tests.antt =====
-- Runs of the offline algorithm.
use foxxll.Prelude.{ℕ, ◌≡◌, ◌≢◌, ◌<◌, ◌≤◌, ◌-◌, ◌^◌, refl, true, false, List, [], ◌∷◌, some, arith}
use foxxll.Common.FifoQueue.{find, forget}
use foxxll.Common.PriorityQueue
use foxxll.Common.PriorityQueue.{PriorityQueue, pop_front}
use foxxll.Common.PriorityQueue.Refines.{Coherent}
use foxxll.Mng.BlockScheduler.{SwappableBlock}
use foxxll.Mng.BlockScheduler.Tests.{held, held-Consistent}
use foxxll.Mng.BlockScheduler.Switch.{Switched}
use foxxll.Mng.BlockScheduler.Lru.{lru_evictable}
use foxxll.Mng.BlockScheduler.Lfd.{
  op_acquire, op_release, op_release_dirty, op_initialize, PredictionElement, predict_operation,
  predict, priority, evicted_before,
}
use foxxll.Mng.BlockScheduler.Lfd.NextUse.{uses_after}
use foxxll.Mng.BlockScheduler.Lfd.Container.{lfd_evictable}
use foxxll.Mng.BlockScheduler.Lfd.Farthest.{pop-Farthest}
use foxxll.Mng.BlockScheduler.Lfd.Algorithm.{
  Lfd, ReleasesOffline, create_offline, create_offline-Switched, release_offline,
  release_offline-ReleasesOffline,
}

-- Block 0 is released twice, and acquired in between at time 4.
abbrev sequence : List PredictionElement
sequence =
    record { op = op_release; id = 0; time = 1 }
    ∷ record { op = op_initialize; id = 1; time = 2 }
    ∷ record { op = op_acquire; id = 0; time = 4 }
    ∷ record { op = op_release_dirty; id = 0; time = 5 }
    ∷ []

predicted : (predict sequence).1 ≡ (true, 4) ∷ (false, 1) ∷ []
unfolding predict predict_operation
predicted = refl

create_offline-Switched_example :
    (s : Lfd) × (create_offline lru_evictable sequence held ≡ some s)
    × Switched lru_evictable lfd_evictable held s.cache
    × (s.next_use ≡ uses_after sequence)
create_offline-Switched_example =
    create_offline-Switched lru_evictable sequence held held-Consistent

-- The offline algorithm takes over while block 0 is acquired.
abbrev taken_over : Lfd
taken_over = (create_offline-Switched lru_evictable sequence held held-Consistent).0

release_offline-ReleasesOffline_example :
    ReleasesOffline 0 true taken_over (release_offline 0 true taken_over)
release_offline-ReleasesOffline_example =
    release_offline-ReleasesOffline 0 true taken_over
      (create_offline-Switched lru_evictable sequence held held-Consistent).2.consistent (λ p d. cc)

abbrev dirty_block : SwappableBlock
dirty_block = record { external_data = 0; internal_data = 1; dirty = true; reference_count = 0 }

-- Block 3 is acquired next at time 5, block 4 at time 2.
abbrev two_blocks : PriorityQueue
two_blocks = record { vals = (20, 3) ∷ (8, 4) ∷ []; meta = (4, 8) ∷ (3, 20) ∷ [] }

abbrev popped : PriorityQueue
popped = record { vals = (8, 4) ∷ []; meta = (4, 8) ∷ [] }

two_blocks-Coherent : Coherent evicted_before two_blocks
unfolding find
two_blocks-Coherent = record { sorted = ((refl, tt), (tt, tt)); agrees = λ o e. ground arith }

pop-run : PriorityQueue.pop two_blocks ≡ some (3, popped)
unfolding PriorityQueue.pop pop_front forget
pop-run = refl

priority-run : find 3 two_blocks.meta ≡ some (priority dirty_block (true, 5))
unfolding find priority
priority-run = refl

pop-Farthest_example :
    ((j : ℕ) (d : SwappableBlock) (u : ℕ)
      → j ≢ 3
      → u < 2 ^ 62 - 1
      → find j two_blocks.meta ≡ some (priority d (true, u))
      → u ≤ 5)
    × ((j : ℕ) (d : SwappableBlock) (code : ℕ)
        → j ≢ 3
        → find j two_blocks.meta ≢ some (priority d (false, code)))
pop-Farthest_example =
    pop-Farthest 3 two_blocks popped dirty_block 5 two_blocks-Coherent pop-run (omega arith)
      priority-run
