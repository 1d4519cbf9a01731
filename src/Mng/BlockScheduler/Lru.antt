-- ===== src/Mng/BlockScheduler/Lru.antt =====
-- `block_scheduler_algorithm_online_lru` (foxxll/mng/block_scheduler.hpp): the caching algorithm over
-- `addressable_fifo_queue`, which takes no priorities.
use foxxll.Prelude.{
  ℕ, ◌+◌, ◌≤◌, ◌<◌, ◌≡◌, refl, ◌∙◌, subst, ap, none, some, ◌==◌, if◌then◌else◌, inl, inr, ◌⊎◌,
  arith, Bool-cases, eq-or-ne, List, [], ◌∷◌, ◌++◌,
}
use foxxll.Common.FifoQueue
use foxxll.Common.FifoQueue.{FifoQueue}
use foxxll.Common.FifoQueue.Nodes.{keys, without, node_of}
use foxxll.Common.FifoQueue.Nodes
use foxxll.Common.FifoQueue.Appending.{Coherent}
use foxxll.Common.FifoQueue.Refines.{operations-Refine}
use foxxll.Mng.BlockScheduler.{SwappableBlock}
use foxxll.Mng.BlockScheduler.Evictable.{Evictable}
use foxxll.Mng.BlockScheduler.Cache.Base.{count, count-append}

abbrev pub elements : FifoQueue → List ℕ
elements q = keys q.vals

abbrev pub length : List ℕ → ℕ
length [] = 0
length (x ∷ xs) = length xs + 1

count-without :
    (j k : ℕ) (es : List ℕ)
    → count k es ≤ 1
    → count j (without k es) ≡ (if j == k then 0 else count j es)
unfolding without
count-without j k [] h = ground arith
count-without j k (e ∷ es) h = elim (Bool-cases (e == k)) [
  | inl y ↦ rw y (elim (Bool-cases (j == k)) [
    | inl s ↦ rw s (ground (arith, y, s, h))
    | inr d ↦ rw d (ground (arith, y, d))
  ])
  | inr f ↦ rw f (elim (Bool-cases (j == k)) [
    | inl s ↦ ground (arith, f, s, count-without j k es (omega (arith, h)))
    | inr d ↦ ground (arith, f, d, count-without j k es (omega (arith, h)))
  ])
]

once : (k : ℕ) (vals : List (ℕ × ℕ)) → count k (keys vals) ≡ Nodes.count k vals
once k [] = refl
once k ((n, e) ∷ vals) = ground (arith, once k vals)

fewer : (k : ℕ) (q : FifoQueue) → Coherent q → count k (elements q) ≤ 1
unfolding elements
fewer k q c = omega (arith, once k q.vals, c.once k)

elements-insert :
    (e : ℕ) (q : FifoQueue)
    → Coherent q
    → elements ((FifoQueue.insert e q).0) ≡ without e (elements q) ++ e ∷ []
unfolding elements
elements-insert e q c = (operations-Refine e q c).0.elements

pop_cases :
    (q : FifoQueue)
    → Coherent q
    → ((elements q ≡ []) × (FifoQueue.pop q ≡ none))
      ⊎ ((e : ℕ) × (q' : FifoQueue) × (FifoQueue.pop q ≡ some (e, q'))
          × Coherent q'
          × (elements q ≡ e ∷ elements q'))
unfolding elements
pop_cases q c = (operations-Refine 0 q c).2

-- What a pop of `k` leaves.
pub record Popped (k : ℕ) (q q' : FifoQueue) : Type 0 where
  pub coherent : Coherent q'
  pub first : elements q ≡ k ∷ elements q'

pub pop-Popped :
    (k : ℕ) (q q' : FifoQueue) → Coherent q → FifoQueue.pop q ≡ some (k, q') → Popped k q q'
pop-Popped k q q' c e = elim (pop_cases q c) [
  | inl (_, n) ↦ absurd (cc (n, e))
  | inr (x, q1, s, d, f) ↦
      let pair : (x, q1) ≡ (k, q') = cc (s, e) in
      subst (λ (y : ℕ × FifoQueue). Popped (y.0) q (y.1)) pair (record { coherent = d; first = f })
]

pub lru_holds-insert :
    (key : Unit {0}) (j k : ℕ) (q : FifoQueue)
    → Coherent q
    → count j (elements ((FifoQueue.insert k q).0)) ≡ (if j == k then 1 else count j (elements q))
lru_holds-insert key j k q c = rw (elements-insert k q c) (
    count-append j (without k (elements q)) (k ∷ [])
    ∙ ground (arith, count-without j k (elements q) (fewer k q c)))

pub lru_holds-erase :
    (j k : ℕ) (q : FifoQueue)
    → Coherent q
    → count j (elements ((FifoQueue.erase k q).0)) ≡ (if j == k then 0 else count j (elements q))
lru_holds-erase j k q c =
    ap (count j) ((operations-Refine k q c).1.elements)
    ∙ count-without j k (elements q) (fewer k q c)

pub lru_pop_none :
    (j : ℕ) (q : FifoQueue) → Coherent q → FifoQueue.pop q ≡ none → count j (elements q) ≡ 0
lru_pop_none j q c e = elim (pop_cases q c) [
  | inl (n, _) ↦ ap (count j) n
  | inr (_, _, s, _, _) ↦ absurd (cc (s, e))
]

pub lru_held :
    (k : ℕ) (q q' : FifoQueue)
    → Coherent q
    → FifoQueue.pop q ≡ some (k, q')
    → count k (elements q) ≡ 1
lru_held k q q' c e =
    let p = pop-Popped k q q' c e in ground (arith, ap (count k) p.first, fewer k q c)

pub lru_holds-pop :
    (j k : ℕ) (q q' : FifoQueue)
    → Coherent q
    → FifoQueue.pop q ≡ some (k, q')
    → count j (elements q') ≡ (if j == k then 0 else count j (elements q))
lru_holds-pop j k q q' c e =
    let p = pop-Popped k q q' c e in
    elim (eq-or-ne j k) [
      | inl s ↦ ground (arith, s, ap (count j) p.first, fewer j q c)
      | inr d ↦ ground (arith, d, ap (count j) p.first)
    ]

pub lru_smaller :
    (k : ℕ) (q q' : FifoQueue)
    → Coherent q
    → FifoQueue.pop q ≡ some (k, q')
    → length (elements q') < length (elements q)
lru_smaller k q q' c e = omega (arith, ap length ((pop-Popped k q q' c e).first))

instance unfoldable pub lru_evictable : Evictable
lru_evictable = record {
  Queue = FifoQueue;
  Key = Unit {0};
  IsValid = Coherent;
  holds = λ j q. count j (elements q);
  size = λ q. length (elements q);
  insert = λ key k q. (FifoQueue.insert k q).0;
  erase = λ k q. (FifoQueue.erase k q).0;
  pop = FifoQueue.pop;
  insert-IsValid = λ key k q c. (operations-Refine k q c).0.coherent;
  erase-IsValid = λ k q c. (operations-Refine k q c).1.coherent;
  holds-insert = lru_holds-insert;
  holds-erase = lru_holds-erase;
  pop_none = lru_pop_none;
  pop-IsValid = λ k q q' c e. (pop-Popped k q q' c e).coherent;
  pop_held = lru_held;
  holds-pop = lru_holds-pop;
  size-pop = lru_smaller;
}

-- `release` inserts a block with no priority.
abbrev pub no_key : SwappableBlock → lru_evictable.Key
unfolding lru_evictable
no_key b = tt

-- A new container.
abbrev pub empty_lru : lru_evictable.Queue
unfolding lru_evictable
empty_lru = FifoQueue.create

pub empty_lru-IsValid :
    lru_evictable.IsValid empty_lru × ((j : ℕ) → lru_evictable.holds j empty_lru ≡ 0)
unfolding lru_evictable FifoQueue.create FifoQueue.find node_of
empty_lru-IsValid =
    (record { rising = omega arith; once = λ k. omega arith; finds = λ k. refl }, λ j. refl)
