-- ===== src/Common/FifoQueue/Nodes.antt =====
-- The nodes of `addressable_fifo_queue` (foxxll/common/addressable_queues.hpp) and its map.
use foxxll.Prelude.{
  ℕ, ◌+◌, ◌≤◌, ◌≡◌, ◌≢◌, refl, ap, true, false, Bool-cases, List, [], ◌∷◌, Option, none, some, ◌==◌,
  if◌then◌else◌, inl, inr, arith,
}
use foxxll.Common.FifoQueue.{find, assign, forget, unlink}

pub find-assign_self : (e n : ℕ) (m : List (ℕ × ℕ)) → find e (assign e n m) ≡ some n
unfolding find assign
find-assign_self e n [] = ground arith
find-assign_self e n ((k, x) ∷ m) = elim (Bool-cases (k == e)) [
  | inl y ↦ rw y (ground arith)
  | inr f ↦ rw (f, f) (find-assign_self e n m)
]

pub find-assign_ne : (k e n : ℕ) (m : List (ℕ × ℕ)) → k ≢ e → find k (assign e n m) ≡ find k m
unfolding find assign
find-assign_ne k e n [] h = ground (arith, h)
find-assign_ne k e n ((j, x) ∷ m) h = elim (Bool-cases (j == e)) [
  | inl y ↦ rw y (ground (arith, h, y))
  | inr f ↦ rw f (ap (λ (r : Option ℕ). if j == k then some x else r) (find-assign_ne k e n m h))
]

pub find-forget_self : (e : ℕ) (m : List (ℕ × ℕ)) → find e (forget e m) ≡ none
unfolding find forget
find-forget_self e [] = refl
find-forget_self e ((k, x) ∷ m) = elim (Bool-cases (k == e)) [
  | inl y ↦ rw y (find-forget_self e m)
  | inr f ↦ rw (f, f) (find-forget_self e m)
]

pub find-forget_ne : (k e : ℕ) (m : List (ℕ × ℕ)) → k ≢ e → find k (forget e m) ≡ find k m
unfolding find forget
find-forget_ne k e [] h = refl
find-forget_ne k e ((j, x) ∷ m) h = elim (Bool-cases (j == e)) [
  | inl y ↦
      let other : (j == k) ≡ false = ground (arith, h, y) in rw (y, other) (find-forget_ne k e m h)
  | inr f ↦ rw f (ap (λ (r : Option ℕ). if j == k then some x else r) (find-forget_ne k e m h))
]

-- The elements, in the order of the queue.
abbrev pub keys : List (ℕ × ℕ) → List ℕ
keys [] = []
keys ((n, e) ∷ vals) = e ∷ keys vals

-- The first node of an element.
unfoldable pub node_of : ℕ → List (ℕ × ℕ) → Option ℕ
node_of k [] = none
node_of k ((n, e) ∷ vals) = if e == k then some n else node_of k vals

-- An element taken out of a list.
unfoldable pub without : ℕ → List ℕ → List ℕ
without k [] = []
without k (e ∷ es) = let rest = without k es in if e == k then es else e ∷ rest

-- The numbers of the nodes rise from `lo` on and stay below `hi`.
abbrev pub Rising : ℕ → List (ℕ × ℕ) → ℕ → Type 0
Rising lo [] hi = lo ≤ hi
Rising lo ((n, e) ∷ vals) hi = (lo ≤ n) × Rising (n + 1) vals hi

abbrev pub count : ℕ → List (ℕ × ℕ) → ℕ
count k [] = 0
count k ((n, e) ∷ vals) = (if e == k then 1 else 0) + count k vals

pub Rising-le : (lo hi : ℕ) (vals : List (ℕ × ℕ)) → Rising lo vals hi → lo ≤ hi
Rising-le lo hi [] r = r
Rising-le lo hi ((n, e) ∷ vals) r = omega (arith, r.0, Rising-le (n + 1) hi vals (r.1))

pub node_of-le :
    (lo hi k n : ℕ) (vals : List (ℕ × ℕ)) → Rising lo vals hi → node_of k vals ≡ some n → lo ≤ n
unfolding node_of
node_of-le lo hi k n [] r e = cc
node_of-le lo hi k n ((m, x) ∷ vals) r e = elim (Bool-cases (x == k)) [
  | inl y ↦ ground (arith, y, e, r.0)
  | inr f ↦ omega (arith, r.0, node_of-le (m + 1) hi k n vals (r.1) (ground (arith, f, e)))
]

-- Taking out the node of an element.
pub record Unlinked (k : ℕ) (vals vals' : List (ℕ × ℕ)) (lo hi : ℕ) : Type 0 where
  pub keys_left : keys vals' ≡ without k (keys vals)
  pub one_less : count k vals' + 1 ≡ count k vals
  pub others : (j : ℕ) → j ≢ k → (node_of j vals' ≡ node_of j vals) × (count j vals' ≡ count j vals)
  pub rising : Rising lo vals' hi

Rising-weaken :
    (lo lo' hi : ℕ) (vals : List (ℕ × ℕ)) → lo ≤ lo' → Rising lo' vals hi → Rising lo vals hi
Rising-weaken lo lo' hi [] h r = omega (arith, h, r)
Rising-weaken lo lo' hi ((n, e) ∷ vals) h r = (omega (arith, h, r.0), r.1)

pub unlink-Unlinked :
    (lo hi k n : ℕ) (vals : List (ℕ × ℕ))
    → Rising lo vals hi
    → node_of k vals ≡ some n
    → Unlinked k vals (unlink n vals) lo hi
unfolding unlink node_of without
unlink-Unlinked lo hi k n [] r e = cc
unlink-Unlinked lo hi k n ((m, x) ∷ vals) r e = elim (Bool-cases (x == k)) [
  | inl y ↦
      let same : (m == n) ≡ true = ground (arith, y, e) in
      rw same (record {
        keys_left = rw y refl;
        one_less = rw y (omega arith);
        others = λ j h. let f : (x == j) ≡ false = ground (arith, y, h) in rw f (refl, omega arith);
        rising = Rising-weaken lo (m + 1) hi vals (omega (arith, r.0)) (r.1);
      })
  | inr f ↦
      let e' : node_of k vals ≡ some n = ground (arith, f, e) in
      let u = unlink-Unlinked (m + 1) hi k n vals (r.1) e' in
      let other : (m == n) ≡ false = ground (arith, node_of-le (m + 1) hi k n vals (r.1) e') in
      rw other (record {
        keys_left = rw f (ap (λ (es : List ℕ). x ∷ es) u.keys_left);
        one_less = rw f (omega (arith, u.one_less));
        others = λ j h. (
          ap (λ (o : Option ℕ). if x == j then some m else o) ((u.others j h).0),
          omega (arith, (u.others j h).1),
        );
        rising = (r.0, u.rising);
      })
]
