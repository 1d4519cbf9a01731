-- ===== src/Mng/BlockScheduler/Lfd/Container.antt =====
-- The evictable blocks of `block_scheduler_algorithm_offline_lfd` (foxxll/mng/block_scheduler.hpp): an
-- `addressable_priority_queue` whose first element has the largest number for its priority.
use foxxll.Prelude.{
  ℕ, ◌+◌, ◌<◌, ◌≡◌, refl, ◌∙◌, subst, ap, Bool, true, false, Option, none, some, ◌==◌,
  if◌then◌else◌, inl, inr, arith, eq-or-ne, List, [], ◌∷◌,
}
use foxxll.Common.FifoQueue.{find}
use foxxll.Common.PriorityQueue
use foxxll.Common.PriorityQueue.{PriorityQueue, pop_front}
use foxxll.Common.PriorityQueue.Order.{StrictOrder}
use foxxll.Common.PriorityQueue.Refines.{is_in, Coherent, Popped, operations-Keep}
use foxxll.Mng.BlockScheduler.Evictable.{Evictable}
use foxxll.Mng.BlockScheduler.Lfd.{evicted_before}

pub evicted_before-StrictOrder : StrictOrder evicted_before
evicted_before-StrictOrder = record {
  irrefl = λ a. ground arith;
  trans = λ a b c x y. ground (arith, x, y);
  connected = λ a b x y. ground (arith, x, y);
}

abbrev pub once_if : Bool → ℕ
once_if true = 1
once_if false = 0

abbrev pub member : ℕ → PriorityQueue → ℕ
member j q = once_if (is_in (find j q.meta))

abbrev pub length : List (ℕ × ℕ) → ℕ
length [] = 0
length (x ∷ xs) = length xs + 1

member_if :
    (e j o : ℕ) (f : Option ℕ)
    → once_if (is_in (if e == j then some o else f)) ≡ (if j == e then 1 else once_if (is_in f))
member_if e j o f = elim (eq-or-ne j e) [ inl s ↦ rw s (ground arith) | inr d ↦ ground (arith, d) ]

member_unless :
    (e j : ℕ) (f : Option ℕ)
    → once_if (is_in (if e == j then none else f)) ≡ (if j == e then 0 else once_if (is_in f))
member_unless e j f = elim (eq-or-ne j e) [
  | inl s ↦ rw s (ground arith)
  | inr d ↦ ground (arith, d)
]

pub lfd_Popped :
    (k : ℕ) (q q' : PriorityQueue)
    → Coherent evicted_before q
    → PriorityQueue.pop q ≡ some (k, q')
    → Popped evicted_before k q q'
lfd_Popped k q q' c e =
    elim ((operations-Keep evicted_before evicted_before-StrictOrder 0 0 q c).2) [
      | inl (n, _) ↦ absurd (cc (n, e))
      | inr (x, q1, s, p) ↦
          let pair : (x, q1) ≡ (k, q') = cc (s, e) in
          subst (λ (y : ℕ × PriorityQueue). Popped evicted_before (y.0) q (y.1)) pair p
    ]

pub lfd_pop_none :
    (j : ℕ) (q : PriorityQueue)
    → Coherent evicted_before q
    → PriorityQueue.pop q ≡ none
    → member j q ≡ 0
lfd_pop_none j q c e =
    elim ((operations-Keep evicted_before evicted_before-StrictOrder 0 0 q c).2) [
      | inl (_, n) ↦ rw (n j) refl
      | inr (_, _, s, _) ↦ absurd (cc (s, e))
    ]

shorter :
    (vals : List (ℕ × ℕ)) (k : ℕ) (q q' : PriorityQueue)
    → pop_front vals q ≡ some (k, q')
    → length q'.vals < length vals
unfolding pop_front
shorter [] k q q' e = cc
shorter ((o, x) ∷ vals) k q q' e = let s : vals ≡ q'.vals = cc e in omega (arith, ap length s)

pub lfd_smaller :
    (k : ℕ) (q q' : PriorityQueue)
    → Coherent evicted_before q
    → PriorityQueue.pop q ≡ some (k, q')
    → length q'.vals < length q.vals
unfolding PriorityQueue.pop
lfd_smaller k q q' c e = shorter q.vals k q q' e

pub lfd_holds-insert :
    (o j k : ℕ) (q : PriorityQueue)
    → Coherent evicted_before q
    → member j ((PriorityQueue.insert evicted_before k o q).0) ≡ (if j == k then 1 else member j q)
lfd_holds-insert o j k q c =
    ap (λ (f : Option ℕ). once_if (is_in f))
      ((operations-Keep evicted_before evicted_before-StrictOrder k o q c).0.found j)
    ∙ member_if k j o (find j q.meta)

pub lfd_holds-erase :
    (j k : ℕ) (q : PriorityQueue)
    → Coherent evicted_before q
    → member j ((PriorityQueue.erase k q).0) ≡ (if j == k then 0 else member j q)
lfd_holds-erase j k q c =
    ap (λ (f : Option ℕ). once_if (is_in f))
      ((operations-Keep evicted_before evicted_before-StrictOrder k 0 q c).1.left j)
    ∙ member_unless k j (find j q.meta)

pub lfd_held :
    (k : ℕ) (q q' : PriorityQueue)
    → Coherent evicted_before q
    → PriorityQueue.pop q ≡ some (k, q')
    → member k q ≡ 1
lfd_held k q q' c e = let (o, f, l) = (lfd_Popped k q q' c e).least in rw f refl

pub lfd_holds-pop :
    (j k : ℕ) (q q' : PriorityQueue)
    → Coherent evicted_before q
    → PriorityQueue.pop q ≡ some (k, q')
    → member j q' ≡ (if j == k then 0 else member j q)
lfd_holds-pop j k q q' c e =
    ap (λ (f : Option ℕ). once_if (is_in f)) ((lfd_Popped k q q' c e).rest j)
    ∙ member_unless k j (find j q.meta)

-- The key is the number of the block's priority.
instance unfoldable pub lfd_evictable : Evictable
lfd_evictable = record {
  Queue = PriorityQueue;
  Key = ℕ;
  IsValid = Coherent evicted_before;
  holds = member;
  size = λ q. length q.vals;
  insert = λ o k q. (PriorityQueue.insert evicted_before k o q).0;
  erase = λ k q. (PriorityQueue.erase k q).0;
  pop = PriorityQueue.pop;
  insert-IsValid =
      λ o k q c. (operations-Keep evicted_before evicted_before-StrictOrder k o q c).0.coherent;
  erase-IsValid =
      λ k q c. (operations-Keep evicted_before evicted_before-StrictOrder k 0 q c).1.coherent_left;
  holds-insert = lfd_holds-insert;
  holds-erase = lfd_holds-erase;
  pop_none = lfd_pop_none;
  pop-IsValid = λ k q q' c e. (lfd_Popped k q q' c e).coherent_rest;
  pop_held = lfd_held;
  holds-pop = lfd_holds-pop;
  size-pop = lfd_smaller;
}

-- A new container.
abbrev pub empty_lfd : lfd_evictable.Queue
unfolding lfd_evictable
empty_lfd = PriorityQueue.create

pub empty_lfd-IsValid :
    lfd_evictable.IsValid empty_lfd × ((j : ℕ) → lfd_evictable.holds j empty_lfd ≡ 0)
unfolding lfd_evictable PriorityQueue.create find
empty_lfd-IsValid = (record { sorted = tt; agrees = λ o e. refl }, λ j. refl)
