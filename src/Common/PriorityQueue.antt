-- ===== src/Common/PriorityQueue.antt =====
-- `addressable_priority_queue` (foxxll/common/addressable_queues.hpp): the set of pairs of a priority and
-- an element, and a map from each element to its pair. The set is the list of its pairs in order. An
-- iterator into the set is known by its pair, of which the map has the priority.
pub mod Order
pub mod Members
pub mod Refines
pub mod Tests
use foxxll.Prelude.{
  ℕ, Bool, true, false, not, ◌&&◌, ◌||◌, List, [], ◌∷◌, Option, none, some, ltb, ◌==◌,
  if◌then◌else◌,
}
use foxxll.Common.FifoQueue.{find, assign, forget}

pub record PriorityQueue : Type 0 where
  pub vals : List (ℕ × ℕ)
  pub meta : List (ℕ × ℕ)

unfoldable pub create : PriorityQueue
create = record { vals = []; meta = [] }

unfoldable pub empty : PriorityQueue → Bool
empty q = elim q.vals [ [] ↦ true | v ∷ vs ↦ false ]

-- `vals.erase` of an iterator.
unfoldable pub erase_pair : ℕ → ℕ → List (ℕ × ℕ) → List (ℕ × ℕ)
erase_pair o e [] = []
erase_pair o e ((p, k) ∷ vals) =
    let rest = erase_pair o e vals in if p == o && k == e then vals else (p, k) ∷ rest

-- `less` compares priorities.
module _ (less : ℕ → ℕ → Bool) where
  -- `cmp`.
  abbrev pub before : ℕ → ℕ → ℕ → ℕ → Bool
  before o e p k = less o p || (not (less p o) && ltb e k)

  -- `vals.insert`, and whether the pair is new.
  unfoldable pub insert_pair : ℕ → ℕ → List (ℕ × ℕ) → List (ℕ × ℕ) × Bool
  insert_pair o e [] = ((o, e) ∷ [], true)
  insert_pair o e ((p, k) ∷ vals) =
      let rest = insert_pair o e vals in
      if before o e p k
      then ((o, e) ∷ (p, k) ∷ vals, true)
      else if before p k o e
      then ((p, k) ∷ rest.0, rest.1)
      else ((p, k) ∷ vals, false)

  -- `insert`, after the set; `found` is what the map has for the element.
  unfoldable pub insert_meta :
      Option ℕ → ℕ → ℕ → List (ℕ × ℕ) × Bool → PriorityQueue → PriorityQueue × Bool
  insert_meta none e o (vals, new) q = (record { vals = vals; meta = assign e o q.meta }, true)
  insert_meta (some p) e o (vals, new) q =
      if new
      then (record { vals = erase_pair p e vals; meta = assign e o q.meta }, false)
      else (record { vals = vals; meta = q.meta }, false)

  unfoldable pub insert : ℕ → ℕ → PriorityQueue → PriorityQueue × Bool
  insert e o q = insert_meta (find e q.meta) e o (insert_pair o e q.vals) q

unfoldable pub erase_found : Option ℕ → ℕ → PriorityQueue → PriorityQueue × Bool
erase_found none e q = (q, false)
erase_found (some o) e q = (record { vals = erase_pair o e q.vals; meta = forget e q.meta }, true)

unfoldable pub erase : ℕ → PriorityQueue → PriorityQueue × Bool
erase e q = erase_found (find e q.meta) e q

-- `none` is the failed assertion on an empty queue.
unfoldable pub pop_front : List (ℕ × ℕ) → PriorityQueue → Option (ℕ × PriorityQueue)
pop_front [] q = none
pop_front ((o, e) ∷ vals) q = some (e, record { vals = vals; meta = forget e q.meta })

unfoldable pub pop : PriorityQueue → Option (ℕ × PriorityQueue)
pop q = pop_front q.vals q
