-- ===== src/Common/PriorityQueue/Order.antt =====
-- The order of `addressable_priority_queue` (foxxll/common/addressable_queues.hpp), and its set of pairs.
use foxxll.Prelude.{
  ℕ, ◌+◌, ◌<◌, ◌≡◌, refl, Bool, true, false, ◌&&◌, List, [], ◌∷◌, ◌==◌, if◌then◌else◌, inl, inr,
  ◌⊎◌, arith, Bool-cases,
}
use foxxll.Common.PriorityQueue.{before}

-- A strict order in which any two priorities compare.
pub record StrictOrder (less : ℕ → ℕ → Bool) : Type 0 where
  pub irrefl : (a : ℕ) → less a a ≡ false
  pub trans : (a b c : ℕ) → less a b ≡ true → less b c ≡ true → less a c ≡ true
  pub connected : (a b : ℕ) → less a b ≡ false → less b a ≡ false → a ≡ b

-- How often a pair is in the list.
abbrev pub pairs : ℕ → ℕ → List (ℕ × ℕ) → ℕ
pairs o e [] = 0
pairs o e ((p, k) ∷ vals) = (if p == o && k == e then 1 else 0) + pairs o e vals

module _ (less : ℕ → ℕ → Bool) where
  -- All pairs of the list come after (o, e).
  abbrev pub Above : ℕ → ℕ → List (ℕ × ℕ) → Type 0
  Above o e [] = Unit {0}
  Above o e ((p, k) ∷ vals) = (before less o e p k ≡ true) × Above o e vals

  abbrev pub Sorted : List (ℕ × ℕ) → Type 0
  Sorted [] = Unit {0}
  Sorted ((o, e) ∷ vals) = Above o e vals × Sorted vals

module _ (less : ℕ → ℕ → Bool) (t : StrictOrder less) where
  before_cases :
      (o e p k : ℕ) → before less o e p k ≡ true → (less o p ≡ true) ⊎ ((o ≡ p) × (e < k))
  before_cases o e p k h = elim (Bool-cases (less o p)) [
    | inl y ↦ inl y
    | inr f ↦ elim (Bool-cases (less p o)) [
      | inl y ↦ absurd (cc (rw (f, y) at h))
      | inr g ↦ inr (t.connected o p f g, ground (arith, rw (f, g) at h))
    ]
  ]

  later : (o e k : ℕ) → e < k → before less o e o k ≡ true
  later o e k h = rw (t.irrefl o) (ground (arith, h))

  pub before_trans :
      (o e p k q l : ℕ)
      → before less o e p k ≡ true
      → before less p k q l ≡ true
      → before less o e q l ≡ true
  before_trans o e p k q l a b = elim (before_cases o e p k a) [
    | inl x ↦ elim (before_cases p k q l b) [
      | inl y ↦ rw (t.trans o p q x y) refl
      | inr (s, y) ↦ let x' : less o q ≡ true = rw s at x in rw x' refl
    ]
    | inr (s, x) ↦ elim (before_cases p k q l b) [
      | inl y ↦ let y' : less o q ≡ true = rw s y in rw y' refl
      | inr (r, y) ↦ rw (s, r) (later q e l (omega (arith, x, y)))
    ]
  ]

  pub before_irrefl : (o e : ℕ) → before less o e o e ≡ false
  before_irrefl o e = rw (t.irrefl o) (ground arith)

  -- Neither is before the other.
  pub same_pair :
      (o e p k : ℕ) → before less o e p k ≡ false → before less p k o e ≡ false → (p ≡ o) × (k ≡ e)
  same_pair o e p k a b = elim (Bool-cases (less o p)) [
    | inl y ↦ absurd (cc (rw y at a))
    | inr f ↦ elim (Bool-cases (less p o)) [
      | inl y ↦ absurd (cc (rw y at b))
      | inr g ↦ let s = t.connected p o g f in (s, ground (arith, rw (f, g) at a, rw (g, f) at b))
    ]
  ]

  pub Above-weaken :
      (o e p k : ℕ) (vals : List (ℕ × ℕ))
      → before less o e p k ≡ true
      → Above less p k vals
      → Above less o e vals
  Above-weaken o e p k [] h a = tt
  Above-weaken o e p k ((q, l) ∷ vals) h a =
      (before_trans o e p k q l h (a.0), Above-weaken o e p k vals h (a.1))

  -- A pair before all others is not among them.
  pub Above-pairs : (o e : ℕ) (vals : List (ℕ × ℕ)) → Above less o e vals → pairs o e vals ≡ 0
  Above-pairs o e [] a = refl
  Above-pairs o e ((p, k) ∷ vals) a = elim (Bool-cases (p == o && k == e)) [
    | inl y ↦
        let s : p ≡ o = ground (arith, y) in
        let r : k ≡ e = ground (arith, y) in absurd (cc (rw (s, r) at (a.0), before_irrefl o e))
    | inr f ↦ rw f (omega (arith, Above-pairs o e vals (a.1)))
  ]
