-- ===== src/Common/FifoQueue.antt =====
-- `addressable_fifo_queue` (foxxll/common/addressable_queues.hpp): a list of elements, and a map from
-- each element to its node of the list. A node is known by a number, which is never used again.
pub mod Nodes
pub mod Appending
pub mod Refines
pub mod Tests
use foxxll.Prelude.{
  ℕ, ◌+◌, Bool, true, false, List, [], ◌∷◌, ◌++◌, Option, none, some, ◌==◌, if◌then◌else◌,
}

-- `vals` has each node with its element, `meta` each element with its node.
pub record FifoQueue : Type 0 where
  pub vals : List (ℕ × ℕ)
  pub meta : List (ℕ × ℕ)
  pub next_node : ℕ

unfoldable pub create : FifoQueue
create = record { vals = []; meta = []; next_node = 0 }

unfoldable pub empty : FifoQueue → Bool
empty q = elim q.vals [ [] ↦ true | v ∷ vs ↦ false ]

-- `meta.find`.
unfoldable pub find : ℕ → List (ℕ × ℕ) → Option ℕ
find e [] = none
find e ((k, n) ∷ meta) = if k == e then some n else find e meta

-- `meta[e] = n`, new or not.
unfoldable pub assign : ℕ → ℕ → List (ℕ × ℕ) → List (ℕ × ℕ)
assign e n [] = (e, n) ∷ []
assign e n ((k, m) ∷ meta) =
    let rest = assign e n meta in if k == e then (e, n) ∷ meta else (k, m) ∷ rest

-- `meta.erase`.
unfoldable pub forget : ℕ → List (ℕ × ℕ) → List (ℕ × ℕ)
forget e [] = []
forget e ((k, n) ∷ meta) = let rest = forget e meta in if k == e then rest else (k, n) ∷ rest

-- `vals.erase` of a node.
unfoldable pub unlink : ℕ → List (ℕ × ℕ) → List (ℕ × ℕ)
unlink n [] = []
unlink n ((m, e) ∷ vals) = let rest = unlink n vals in if m == n then vals else (m, e) ∷ rest

unfoldable pub insert_at : Option ℕ → ℕ → FifoQueue → FifoQueue × Bool
insert_at none e q = (
  record {
    vals = q.vals ++ (q.next_node, e) ∷ [];
    meta = assign e q.next_node q.meta;
    next_node = q.next_node + 1;
  },
  true,
)
insert_at (some n) e q = (
  record {
    vals = unlink n (q.vals ++ (q.next_node, e) ∷ []);
    meta = assign e q.next_node q.meta;
    next_node = q.next_node + 1;
  },
  false,
)

unfoldable pub insert : ℕ → FifoQueue → FifoQueue × Bool
insert e q = insert_at (find e q.meta) e q

unfoldable pub erase_at : Option ℕ → ℕ → FifoQueue → FifoQueue × Bool
erase_at none e q = (q, false)
erase_at (some n) e q = (record q { vals = unlink n q.vals; meta = forget e q.meta }, true)

unfoldable pub erase : ℕ → FifoQueue → FifoQueue × Bool
erase e q = erase_at (find e q.meta) e q

-- `none` is the failed assertion on an empty queue.
unfoldable pub pop_front : List (ℕ × ℕ) → FifoQueue → Option (ℕ × FifoQueue)
pop_front [] q = none
pop_front ((n, e) ∷ vals) q = some (e, record q { vals = vals; meta = forget e q.meta })

unfoldable pub pop : FifoQueue → Option (ℕ × FifoQueue)
pop q = pop_front q.vals q
