-- ===== src/Common/PriorityQueue/Tests.antt =====
-- Runs of the priority queue: 5, 7 and 9 are inserted with priorities, and 7 then gets another.
use foxxll.Prelude.{◌≡◌, refl, ltb, [], ◌∷◌, arith}
use foxxll.Common.FifoQueue.{find, assign, forget}
use foxxll.Common.PriorityQueue.{
  PriorityQueue, create, empty, erase_pair, insert_pair, insert_meta, insert, erase_found, erase,
  pop_front, pop,
}
use foxxll.Common.PriorityQueue.Order.{StrictOrder}
use foxxll.Common.PriorityQueue.Refines.{Coherent, Inserted, Erased, Pops, operations-Keep}

program : Unit {0}
unfolding create empty find assign forget erase_pair insert_pair insert_meta insert erase_found
    erase pop_front pop
program = tt

abbrev three : PriorityQueue
three = record { vals = (1, 9) ∷ (3, 5) ∷ (4, 7) ∷ []; meta = (5, 3) ∷ (7, 4) ∷ (9, 1) ∷ [] }

built : (insert ltb 9 1 (insert ltb 7 4 (insert ltb 5 3 create).0).0).0 ≡ three
unfolding program
built = refl

raised : (insert ltb 7 0 three).0.vals ≡ (0, 7) ∷ (1, 9) ∷ (3, 5) ∷ []
unfolding program
raised = refl

ltb-StrictOrder : StrictOrder ltb
ltb-StrictOrder = record {
  irrefl = λ a. ground arith;
  trans = λ a b c x y. ground (arith, x, y);
  connected = λ a b x y. ground (arith, x, y);
}

three-Coherent : Coherent ltb three
unfolding program
three-Coherent = record {
  sorted = ((refl, (refl, tt)), ((refl, tt), (tt, tt)));
  agrees = λ o e. ground arith;
}

operations-Keep_example :
    Inserted ltb 7 0 three (insert ltb 7 0 three)
    × Erased ltb 7 three (erase 7 three)
    × Pops ltb ltb-StrictOrder three (pop three)
operations-Keep_example = operations-Keep ltb ltb-StrictOrder 7 0 three three-Coherent
