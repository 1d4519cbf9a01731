-- ===== src/Common/FifoQueue/Tests.antt =====
-- Runs of the queue: 5, 7 and 9 are inserted, and then 7 again.
use foxxll.Prelude.{◌≡◌, refl, [], ◌∷◌, arith}
use foxxll.Common.FifoQueue.{
  FifoQueue, create, empty, find, assign, forget, unlink, insert_at, insert, erase_at, erase,
  pop_front, pop,
}
use foxxll.Common.FifoQueue.Nodes.{node_of}
use foxxll.Common.FifoQueue.Appending.{Coherent}
use foxxll.Common.FifoQueue.Refines.{Inserted, Erased, Popped, operations-Refine}

-- What a run of the queue computes with.
program : Unit {0}
unfolding create empty find assign forget unlink insert_at insert erase_at erase pop_front pop
    node_of
program = tt

abbrev three : FifoQueue
three = record {
  vals = (0, 5) ∷ (1, 7) ∷ (2, 9) ∷ [];
  meta = (5, 0) ∷ (7, 1) ∷ (9, 2) ∷ [];
  next_node = 3;
}

built : (insert 9 (insert 7 (insert 5 create).0).0).0 ≡ three
unfolding program
built = refl

-- The element moves to the back.
moved : (insert 7 three).0.vals ≡ (0, 5) ∷ (2, 9) ∷ (3, 7) ∷ []
unfolding program
moved = refl

three-Coherent : Coherent three
unfolding program
three-Coherent = record { rising = omega arith; once = λ k. ground arith; finds = λ k. refl }

operations-Refine_example :
    Inserted 7 three (insert 7 three) × Erased 7 three (erase 7 three) × Popped three (pop three)
operations-Refine_example = operations-Refine 7 three three-Coherent
