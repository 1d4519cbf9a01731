-- ===== src/Common/FifoQueue/Appending.antt =====
-- The invariant of `addressable_fifo_queue` (foxxll/common/addressable_queues.hpp), and a new node at
-- the end of its list.
use foxxll.Prelude.{
  ℕ, ◌+◌, ◌≤◌, ◌≡◌, ◌≢◌, ◌∙◌, refl, sym, ap, Bool, true, false, Bool-cases, List, [], ◌∷◌, ◌++◌,
  Option, none, some, ◌==◌, if◌then◌else◌, inl, inr, ◌⊎◌, arith,
}
use foxxll.Common.FifoQueue.{FifoQueue, find, assign, unlink}
use foxxll.Common.FifoQueue.Nodes.{
  find-assign_self, find-assign_ne, keys, node_of, without, Rising, count,
}

unfoldable pub holds : ℕ → List ℕ → Bool
holds e [] = false
holds e (k ∷ ks) = if k == e then true else holds e ks

-- The list and the map agree, and no element is in twice.
pub record Coherent (q : FifoQueue) : Type 0 where
  pub rising : Rising 0 q.vals q.next_node
  pub once : (k : ℕ) → count k q.vals ≤ 1
  pub finds : (k : ℕ) → find k q.meta ≡ node_of k q.vals

pub absent :
    (k : ℕ) (vals : List (ℕ × ℕ))
    → node_of k vals ≡ none
    → (count k vals ≡ 0) × (without k (keys vals) ≡ keys vals) × (holds k (keys vals) ≡ false)
unfolding node_of without holds
absent k [] e = (refl, refl, refl)
absent k ((n, x) ∷ vals) e = elim (Bool-cases (x == k)) [
  | inl y ↦ absurd (ground (arith, y, e))
  | inr f ↦
      let r = absent k vals (ground (arith, f, e)) in
      rw f (omega (arith, r.0), ap (λ (es : List ℕ). x ∷ es) (r.1), r.2)
]

pub present : (k n : ℕ) (vals : List (ℕ × ℕ)) → node_of k vals ≡ some n → holds k (keys vals) ≡ true
unfolding node_of holds
present k n [] e = cc
present k n ((m, x) ∷ vals) e = elim (Bool-cases (x == k)) [
  | inl y ↦ rw y refl
  | inr f ↦ rw f (present k n vals (ground (arith, f, e)))
]

pub uncounted : (k : ℕ) (vals : List (ℕ × ℕ)) → count k vals ≡ 0 → node_of k vals ≡ none
unfolding node_of
uncounted k [] e = refl
uncounted k ((n, x) ∷ vals) e = elim (Bool-cases (x == k)) [
  | inl y ↦ absurd (ground (arith, y, e))
  | inr f ↦ rw f (uncounted k vals (ground (arith, f, e)))
]

pub unlink-append :
    (e n : ℕ) (vals more : List (ℕ × ℕ))
    → node_of e vals ≡ some n
    → unlink n (vals ++ more) ≡ unlink n vals ++ more
unfolding unlink node_of
unlink-append e n [] more h = cc
unlink-append e n ((m, x) ∷ vals) more h = elim (Bool-cases (m == n)) [
  | inl y ↦ rw y refl
  | inr f ↦
      rw f (
        ap (λ (vs : List (ℕ × ℕ)). (m, x) ∷ vs)
          (unlink-append e n vals more (ground (arith, f, h))))
]

-- A new node at the end.
pub record Appended (e hi : ℕ) (vals : List (ℕ × ℕ)) : Type 0 where
  pub keys_after : keys (vals ++ (hi, e) ∷ []) ≡ keys vals ++ e ∷ []
  pub counts : (k : ℕ) → count k (vals ++ (hi, e) ∷ []) ≡ count k vals + (if e == k then 1 else 0)
  pub found : node_of e vals ≡ none → node_of e (vals ++ (hi, e) ∷ []) ≡ some hi
  pub others : (k : ℕ) → k ≢ e → node_of k (vals ++ (hi, e) ∷ []) ≡ node_of k vals

pub append-Appended : (e hi : ℕ) (vals : List (ℕ × ℕ)) → Appended e hi vals
unfolding node_of
append-Appended e hi [] = record {
  keys_after = refl;
  counts = λ k. omega arith;
  found = λ h. ground arith;
  others = λ k h. ground (arith, h);
}
append-Appended e hi ((n, x) ∷ vals) =
    let a = append-Appended e hi vals in
    record {
      keys_after = ap (λ (es : List ℕ). x ∷ es) a.keys_after;
      counts = λ k. omega (arith, a.counts k);
      found = λ h. elim (Bool-cases (x == e)) [
        | inl y ↦ absurd (ground (arith, y, h))
        | inr f ↦ rw f (a.found (ground (arith, f, h)))
      ];
      others = λ k h. ap (λ (o : Option ℕ). if x == k then some n else o) (a.others k h);
    }

append-Rising :
    (lo hi e : ℕ) (vals : List (ℕ × ℕ))
    → Rising lo vals hi
    → Rising lo (vals ++ (hi, e) ∷ []) (hi + 1)
append-Rising lo hi e [] r = (r, omega arith)
append-Rising lo hi e ((n, x) ∷ vals) r = (r.0, append-Rising (n + 1) hi e vals (r.1))

pub order_cases : (a b : ℕ) → (a ≡ b) ⊎ (a ≢ b)
order_cases a b = elim (Bool-cases (a == b)) [
  | inl y ↦ inl (ground (arith, y))
  | inr f ↦ inr (λ e. ground (arith, f, e))
]

-- The element is put at the end of a list that does not hold it.
pub append-Coherent :
    (e hi : ℕ) (vals meta : List (ℕ × ℕ))
    → Rising 0 vals hi
    → ((k : ℕ) → count k vals ≤ 1)
    → node_of e vals ≡ none
    → ((k : ℕ) → k ≢ e → find k meta ≡ node_of k vals)
    → Coherent (record { vals = vals ++ (hi, e) ∷ []; meta = assign e hi meta; next_node = hi + 1 })
append-Coherent e hi vals meta r o n f =
    let a = append-Appended e hi vals in
    record {
      rising = append-Rising 0 hi e vals r;
      once = λ k. elim (order_cases k e) [
        | inl s ↦ rw s (ground (arith, a.counts e, (absent e vals n).0))
        | inr d ↦ ground (arith, a.counts k, o k, d)
      ];
      finds = λ k. elim (order_cases k e) [
        | inl s ↦ rw s (find-assign_self e hi meta ∙ sym (a.found n))
        | inr d ↦ find-assign_ne k e hi meta d ∙ f k d ∙ sym (a.others k d)
      ];
    }
