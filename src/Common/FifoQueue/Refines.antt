-- ===== src/Common/FifoQueue/Refines.antt =====
-- `addressable_fifo_queue` (foxxll/common/addressable_queues.hpp) and the list of its elements.
use foxxll.Prelude.{
  ℕ, ◌≤◌, ◌≡◌, ◌∙◌, refl, sym, ap, subst, Bool, not, List, [], ◌∷◌, ◌++◌, Option, none, some, inl,
  inr, ◌⊎◌, arith,
}
use foxxll.Common.FifoQueue.{
  FifoQueue, find, forget, unlink, insert_at, insert, erase_at, erase, pop_front, pop,
}
use foxxll.Common.FifoQueue.Nodes.{
  find-forget_self, find-forget_ne, keys, node_of, without, count, Unlinked, unlink-Unlinked,
}
use foxxll.Common.FifoQueue.Appending.{
  holds, Coherent, absent, present, uncounted, unlink-append, append-Appended, order_cases,
  append-Coherent,
}

-- `insert` moves an element that is there, and adds one that is not; it tells which.
pub record Inserted (e : ℕ) (q : FifoQueue) (r : FifoQueue × Bool) : Type 0 where
  pub coherent : Coherent (r.0)
  pub elements : keys (r.0).vals ≡ without e (keys q.vals) ++ e ∷ []
  pub new : r.1 ≡ not (holds e (keys q.vals))

-- `erase` takes out an element that is there; it tells whether it was.
pub record Erased (e : ℕ) (q : FifoQueue) (r : FifoQueue × Bool) : Type 0 where
  pub coherent : Coherent (r.0)
  pub elements : keys (r.0).vals ≡ without e (keys q.vals)
  pub was_in : r.1 ≡ holds e (keys q.vals)

-- `pop` takes the first element of a queue that is not empty.
abbrev pub Popped : FifoQueue → Option (ℕ × FifoQueue) → Type 0
Popped q r =
    ((keys q.vals ≡ []) × (r ≡ none))
    ⊎ ((e : ℕ) × (q' : FifoQueue) × (r ≡ some (e, q'))
        × Coherent q'
        × (keys q.vals ≡ e ∷ keys q'.vals))

gone :
    (e n hi : ℕ) (vals : List (ℕ × ℕ))
    → ((k : ℕ) → count k vals ≤ 1)
    → Unlinked e vals (unlink n vals) 0 hi
    → node_of e (unlink n vals) ≡ none
gone e n hi vals o u = uncounted e (unlink n vals) (omega (arith, u.one_less, o e))

few :
    (e n hi : ℕ) (vals : List (ℕ × ℕ))
    → ((k : ℕ) → count k vals ≤ 1)
    → Unlinked e vals (unlink n vals) 0 hi
    → (k : ℕ) → count k (unlink n vals) ≤ 1
few e n hi vals o u k = elim (order_cases k e) [
  | inl s ↦ rw s (omega (arith, u.one_less, o e))
  | inr d ↦ omega (arith, (u.others k d).1, o k)
]

insert_at-Inserted :
    (f : Option ℕ) (e : ℕ) (q : FifoQueue)
    → Coherent q
    → node_of e q.vals ≡ f
    → Inserted e q (insert_at f e q)
unfolding insert_at
insert_at-Inserted none e q c f =
    let (_, same, out) = absent e q.vals f in
    record {
      coherent = append-Coherent e q.next_node q.vals q.meta c.rising c.once f (λ k d. c.finds k);
      elements = rw same (append-Appended e q.next_node q.vals).keys_after;
      new = rw out refl;
    }
insert_at-Inserted (some n) e q c f =
    let u = unlink-Unlinked 0 q.next_node e n q.vals c.rising f in
    let moved = unlink-append e n q.vals ((q.next_node, e) ∷ []) f in
    rw moved (record {
      coherent =
          append-Coherent e q.next_node (unlink n q.vals) q.meta u.rising
            (few e n q.next_node q.vals c.once u) (gone e n q.next_node q.vals c.once u)
            (λ k d. c.finds k ∙ sym ((u.others k d).0));
      elements =
          (append-Appended e q.next_node (unlink n q.vals)).keys_after
          ∙ ap (λ (ks : List ℕ). ks ++ e ∷ []) u.keys_left;
      new = rw (present e n q.vals f) refl;
    })

erase_at-Erased :
    (f : Option ℕ) (e : ℕ) (q : FifoQueue)
    → Coherent q
    → node_of e q.vals ≡ f
    → Erased e q (erase_at f e q)
unfolding erase_at
erase_at-Erased none e q c f =
    let (_, same, out) = absent e q.vals f in
    record { coherent = c; elements = sym same; was_in = sym out }
erase_at-Erased (some n) e q c f =
    let u = unlink-Unlinked 0 q.next_node e n q.vals c.rising f in
    record {
      coherent = record {
        rising = u.rising;
        once = few e n q.next_node q.vals c.once u;
        finds = λ k. elim (order_cases k e) [
          | inl s ↦ rw s (find-forget_self e q.meta ∙ sym (gone e n q.next_node q.vals c.once u))
          | inr d ↦ find-forget_ne k e q.meta d ∙ c.finds k ∙ sym ((u.others k d).0)
        ];
      };
      elements = u.keys_left;
      was_in = sym (present e n q.vals f);
    }

unlink_head : (n e : ℕ) (vals : List (ℕ × ℕ)) → unlink n ((n, e) ∷ vals) ≡ vals
unfolding unlink
unlink_head n e vals = ground arith

node_of_head : (n e : ℕ) (vals : List (ℕ × ℕ)) → node_of e ((n, e) ∷ vals) ≡ some n
unfolding node_of
node_of_head n e vals = ground arith

head_out :
    (n e : ℕ) (vals : List (ℕ × ℕ)) (q : FifoQueue)
    → Coherent q
    → q.vals ≡ (n, e) ∷ vals
    → Coherent (record q { vals = vals; meta = forget e q.meta })
unfolding erase_at
head_out n e vals q c s =
    subst (λ (vs : List (ℕ × ℕ)). Coherent (record q { vals = vs; meta = forget e q.meta }))
      (ap (unlink n) s ∙ unlink_head n e vals)
      (erase_at-Erased (some n) e q c (ap (node_of e) s ∙ node_of_head n e vals)).coherent

pop_front-Popped :
    (vals : List (ℕ × ℕ)) (q : FifoQueue) → Coherent q → q.vals ≡ vals → Popped q (pop_front vals q)
unfolding pop_front
pop_front-Popped [] q c s = inl (ap keys s, refl)
pop_front-Popped ((n, e) ∷ vals) q c s = inr (e, _, refl, head_out n e vals q c s, ap keys s)

-- A queue whose list and map agree, and in which no element is twice, stays so over `insert`, `erase`
-- and `pop`, and does what a list of elements does: `insert` takes the element out, wherever it is, and
-- puts it at the end, and tells whether it was new; `erase` takes it out and tells whether it was in;
-- `pop` takes the first element, and fails on the empty queue alone.
pub operations-Refine :
    (e : ℕ) (q : FifoQueue)
    → Coherent q
    → Inserted e q (insert e q) × Erased e q (erase e q) × Popped q (pop q)
unfolding insert erase pop
operations-Refine e q c = (
  insert_at-Inserted (find e q.meta) e q c (sym (c.finds e)),
  erase_at-Erased (find e q.meta) e q c (sym (c.finds e)),
  pop_front-Popped q.vals q c refl,
)
