-- ===== src/Common/PriorityQueue/Members.antt =====
-- The set of pairs of `addressable_priority_queue` (foxxll/common/addressable_queues.hpp): `insert` and
-- `erase` of std::set.
use foxxll.Prelude.{
  ℕ, ◌≡◌, refl, Bool, true, false, ◌&&◌, List, [], ◌∷◌, ◌==◌, if◌then◌else◌, inl, inr, arith,
  Bool-cases,
}
use foxxll.Common.PriorityQueue.{before, insert_pair, erase_pair}
use foxxll.Common.PriorityQueue.Order.{
  StrictOrder, pairs, Above, Sorted, before_irrefl, same_pair, Above-weaken, Above-pairs,
}

module _ (less : ℕ → ℕ → Bool) where
  pub record InsertedPair (o e : ℕ) (vals : List (ℕ × ℕ)) (r : List (ℕ × ℕ) × Bool) : Type 0 where
    pub sorted : Sorted less (r.0)
    pub above : (p k : ℕ) → before less p k o e ≡ true → Above less p k vals → Above less p k (r.0)
    pub new : pairs o e vals ≡ (if r.1 then 0 else 1)
    pub here : pairs o e (r.0) ≡ 1
    pub others : (p k : ℕ) → (o == p && e == k) ≡ false → pairs p k (r.0) ≡ pairs p k vals

  pub record ErasedPair (o e : ℕ) (vals vals' : List (ℕ × ℕ)) : Type 0 where
    pub sorted_left : Sorted less vals'
    pub above_left : (p k : ℕ) → Above less p k vals → Above less p k vals'
    pub gone : pairs o e vals' ≡ 0
    pub others_left : (p k : ℕ) → (o == p && e == k) ≡ false → pairs p k vals' ≡ pairs p k vals

module _ (less : ℕ → ℕ → Bool) (t : StrictOrder less) where
  apart : (o e p k : ℕ) → before less o e p k ≡ true → (o == p && e == k) ≡ false
  apart o e p k h = elim (Bool-cases (o == p && e == k)) [
    | inr f ↦ f
    | inl y ↦
        let s : o ≡ p = ground (arith, y) in
        let r : e ≡ k = ground (arith, y) in absurd (cc (rw (s, r) at h, before_irrefl less t p k))
  ]

  apart' : (o e p k : ℕ) → before less o e p k ≡ true → (p == o && k == e) ≡ false
  apart' o e p k h = let f = apart o e p k h in ground (arith, f)

  pub insert_pair-InsertedPair :
      (o e : ℕ) (vals : List (ℕ × ℕ))
      → Sorted less vals
      → InsertedPair less o e vals (insert_pair less o e vals)
  unfolding insert_pair
  insert_pair-InsertedPair o e [] s = record {
    sorted = (tt, tt);
    above = λ p k h a. (h, tt);
    new = refl;
    here = ground arith;
    others = λ p k h. rw h refl;
  }
  insert_pair-InsertedPair o e ((p, k) ∷ vals) (a, s) = elim (Bool-cases (before less o e p k)) [
    | inl h ↦
        let z = Above-pairs less t o e vals (Above-weaken less t o e p k vals h a) in
        rw h (record {
          sorted = ((h, Above-weaken less t o e p k vals h a), (a, s));
          above = λ q l g b. (g, b);
          new = rw (apart' o e p k h) (omega (arith, z));
          here = ground (arith, z, apart' o e p k h);
          others = λ q l g. rw g (omega arith);
        })
    | inr f ↦ elim (Bool-cases (before less p k o e)) [
      | inl h ↦
          let i = insert_pair-InsertedPair o e vals s in
          rw (f, h)
            (record {
              sorted = (i.above p k h a, i.sorted);
              above = λ q l g b. (b.0, i.above q l g (b.1));
              new = rw (apart p k o e h) (omega (arith, i.new));
              here = rw (apart p k o e h) (omega (arith, i.here));
              others = λ q l g. omega (arith, i.others q l g);
            })
      | inr g ↦
          let (x, y) = same_pair less t o e p k f g in
          let z = Above-pairs less t p k vals a in
          rw (f, g)
            (record {
              sorted = (a, s);
              above = λ q l g' b. b;
              new = ground (arith, x, y, z);
              here = ground (arith, x, y, z);
              others = λ q l g'. refl;
            })
    ]
  ]

  pub erase_pair-ErasedPair :
      (o e : ℕ) (vals : List (ℕ × ℕ))
      → Sorted less vals
      → ErasedPair less o e vals (erase_pair o e vals)
  unfolding erase_pair
  erase_pair-ErasedPair o e [] s = record {
    sorted_left = tt;
    above_left = λ p k a. a;
    gone = refl;
    others_left = λ p k h. refl;
  }
  erase_pair-ErasedPair o e ((p, k) ∷ vals) (a, s) = elim (Bool-cases (p == o && k == e)) [
    | inl y ↦
        let x : p ≡ o = ground (arith, y) in
        let z : k ≡ e = ground (arith, y) in
        rw y (record {
          sorted_left = s;
          above_left = λ q l b. b.1;
          gone = rw (← x, ← z) (Above-pairs less t p k vals a);
          others_left = λ q l h. rw (x, z) (rw h (omega arith));
        })
    | inr f ↦
        let i = erase_pair-ErasedPair o e vals s in
        rw f (record {
          sorted_left = (i.above_left p k a, i.sorted_left);
          above_left = λ q l b. (b.0, i.above_left q l (b.1));
          gone = rw f (omega (arith, i.gone));
          others_left = λ q l h. omega (arith, i.others_left q l h);
        })
  ]
