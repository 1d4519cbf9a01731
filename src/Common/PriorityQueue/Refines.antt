-- ===== src/Common/PriorityQueue/Refines.antt =====
-- `addressable_priority_queue` (foxxll/common/addressable_queues.hpp) and the map from its elements to
-- their priorities.
use foxxll.Prelude.{
  ℕ, ◌<◌, ◌≡◌, ◌≢◌, refl, sym, ◌∙◌, ap, Bool, true, false, not, ◌&&◌, List, [], ◌∷◌, Option, none,
  some, ◌==◌, if◌then◌else◌, inl, inr, ◌⊎◌, arith, Bool-cases, eq-or-ne,
}
use foxxll.Common.FifoQueue.{find, assign, forget}
use foxxll.Common.FifoQueue.Nodes.{
  find-assign_self, find-assign_ne, find-forget_self, find-forget_ne,
}
use foxxll.Common.PriorityQueue.{
  PriorityQueue, before, insert_pair, insert_meta, insert, erase_found, erase, pop_front, pop,
}
use foxxll.Common.PriorityQueue.Order.{StrictOrder, pairs, Above, Sorted, Above-pairs}
use foxxll.Common.PriorityQueue.Members.{
  InsertedPair, insert_pair-InsertedPair, erase_pair-ErasedPair,
}

-- How often an element with what the map has for it is in the set with priority `o`.
abbrev pub here : Option ℕ → ℕ → ℕ
here none o = 0
here (some p) o = if p == o then 1 else 0

abbrev pub is_in : Option ℕ → Bool
is_in none = false
is_in (some p) = true

find-assign :
    (j e o : ℕ) (m : List (ℕ × ℕ)) → find j (assign e o m) ≡ (if e == j then some o else find j m)
find-assign j e o m = elim (eq-or-ne j e) [
  | inl s ↦ rw s (find-assign_self e o m ∙ ground arith)
  | inr d ↦ find-assign_ne j e o m d ∙ ground (arith, d)
]

find-forget :
    (j e : ℕ) (m : List (ℕ × ℕ)) → find j (forget e m) ≡ (if e == j then none else find j m)
find-forget j e m = elim (eq-or-ne j e) [
  | inl s ↦ rw s (find-forget_self e m ∙ ground arith)
  | inr d ↦ find-forget_ne j e m d ∙ ground (arith, d)
]

module _ (less : ℕ → ℕ → Bool) where
  -- The set is in order and agrees with the map.
  pub record Coherent (q : PriorityQueue) : Type 0 where
    pub sorted : Sorted less q.vals
    pub agrees : (o e : ℕ) → pairs o e q.vals ≡ here (find e q.meta) o

  pub record Inserted (e o : ℕ) (q : PriorityQueue) (r : PriorityQueue × Bool) : Type 0 where
    pub coherent : Coherent (r.0)
    pub found : (j : ℕ) → find j ((r.0).meta) ≡ (if e == j then some o else find j q.meta)
    pub new : r.1 ≡ not (is_in (find e q.meta))

  pub record Erased (e : ℕ) (q : PriorityQueue) (r : PriorityQueue × Bool) : Type 0 where
    pub coherent_left : Coherent (r.0)
    pub left : (j : ℕ) → find j ((r.0).meta) ≡ (if e == j then none else find j q.meta)
    pub was_in : r.1 ≡ is_in (find e q.meta)

  -- `e` has been popped.
  pub record Popped (e : ℕ) (q q' : PriorityQueue) : Type 0 where
    pub coherent_rest : Coherent q'
    pub rest : (j : ℕ) → find j q'.meta ≡ (if e == j then none else find j q.meta)
    pub least :
        (o : ℕ) × (find e q.meta ≡ some o)
        × ((j p : ℕ) → j ≢ e → find j q.meta ≡ some p → before less o e p j ≡ true)

module _ (less : ℕ → ℕ → Bool) (t : StrictOrder less) where
  insert_meta-Inserted :
      (f : Option ℕ) (e o : ℕ) (vals : List (ℕ × ℕ)) (new : Bool) (q : PriorityQueue)
      → Coherent less q
      → find e q.meta ≡ f
      → InsertedPair less o e q.vals (vals, new)
      → Inserted less e o q (insert_meta less f e o (vals, new) q)
  unfolding insert_meta
  insert_meta-Inserted none e o vals new q c f i = record {
    coherent = record {
      sorted = i.sorted;
      agrees = λ p k. rw (find-assign k e o q.meta) (elim (Bool-cases (o == p && e == k)) [
        | inl y ↦ ground (arith, y, i.here)
        | inr n ↦ ground (arith, n, i.others p k n, c.agrees p k, ap (λ (x : Option ℕ). here x p) f)
      ]);
    };
    found = λ j. find-assign j e o q.meta;
    new = rw f refl;
  }
  insert_meta-Inserted (some p0) e o vals true q c f i =
      let d = erase_pair-ErasedPair less t p0 e vals i.sorted in
      let fresh : (p0 == o) ≡ false =
        ground (arith, i.new, c.agrees o e, ap (λ (x : Option ℕ). here x o) f) in
      record {
        coherent = record {
          sorted = d.sorted_left;
          agrees = λ p k. rw (find-assign k e o q.meta) (elim (Bool-cases (p0 == p && e == k)) [
            | inl y ↦ ground (arith, y, d.gone, fresh)
            | inr n ↦ elim (Bool-cases (o == p && e == k)) [
              | inl y ↦ ground (arith, y, n, d.others_left p k n, i.here)
              | inr m ↦ ground (
                arith,
                n,
                m,
                d.others_left p k n,
                i.others p k m,
                c.agrees p k,
                ap (λ (x : Option ℕ). here x p) f,
              )
            ]
          ]);
        };
        found = λ j. find-assign j e o q.meta;
        new = rw f refl;
      }
  insert_meta-Inserted (some p0) e o vals false q c f i =
      let same : p0 ≡ o = ground (arith, i.new, c.agrees o e, ap (λ (x : Option ℕ). here x o) f) in
      record {
        coherent = record {
          sorted = i.sorted;
          agrees = λ p k. elim (Bool-cases (o == p && e == k)) [
            | inl y ↦ ground (arith, y, i.here, same, ap (λ (x : Option ℕ). here x o) f)
            | inr n ↦ i.others p k n ∙ c.agrees p k
          ];
        };
        found = λ j. elim (Bool-cases (e == j)) [
          | inl y ↦ rw y (ap (λ (x : ℕ). find x q.meta) (ground (arith, y)) ∙ f ∙ ap some same)
          | inr n ↦ rw n refl
        ];
        new = rw f refl;
      }

  erase_found-Erased :
      (f : Option ℕ) (e : ℕ) (q : PriorityQueue)
      → Coherent less q
      → find e q.meta ≡ f
      → Erased less e q (erase_found f e q)
  unfolding erase_found
  erase_found-Erased none e q c f = record {
    coherent_left = c;
    left = λ j. elim (Bool-cases (e == j)) [
      | inl y ↦ rw y (ap (λ (x : ℕ). find x q.meta) (ground (arith, y)) ∙ f)
      | inr n ↦ rw n refl
    ];
    was_in = rw f refl;
  }
  erase_found-Erased (some o) e q c f =
      let d = erase_pair-ErasedPair less t o e q.vals c.sorted in
      record {
        coherent_left = record {
          sorted = d.sorted_left;
          agrees = λ p k. rw (find-forget k e q.meta) (elim (Bool-cases (o == p && e == k)) [
            | inl y ↦ ground (arith, y, d.gone)
            | inr n ↦
                ground
                  (arith, n, d.others_left p k n, c.agrees p k, ap (λ (x : Option ℕ). here x p) f)
          ]);
        };
        left = λ j. find-forget j e q.meta;
        was_in = rw f refl;
      }

  Above-before :
      (o e p k : ℕ) (vals : List (ℕ × ℕ))
      → Above less o e vals
      → 0 < pairs p k vals
      → before less o e p k ≡ true
  Above-before o e p k [] a h = absurd (omega (arith, h))
  Above-before o e p k ((q, l) ∷ vals) a h = elim (Bool-cases (q == p && l == k)) [
    | inl y ↦
        let x : q ≡ p = ground (arith, y) in
        let z : l ≡ k = ground (arith, y) in rw (← x, ← z) (a.0)
    | inr n ↦ Above-before o e p k vals (a.1) (ground (arith, n, h))
  ]

  front_priority : (o e : ℕ) (f : Option ℕ) → 0 < here f o → f ≡ some o
  front_priority o e none h = absurd (omega (arith, h))
  front_priority o e (some p) h = ap some (ground (arith, h))

  pop_front-Popped :
      (o e : ℕ) (vals : List (ℕ × ℕ)) (q : PriorityQueue)
      → Coherent less q
      → q.vals ≡ (o, e) ∷ vals
      → Popped less e q (record { vals = vals; meta = forget e q.meta })
  pop_front-Popped o e vals q c s =
      let (a, r) : Sorted less ((o, e) ∷ vals) = rw s at c.sorted in
      let g = λ (p k : ℕ). ap (pairs p k) (sym s) ∙ c.agrees p k in
      let f : find e q.meta ≡ some o = front_priority o e (find e q.meta) (ground (arith, g o e)) in
      let z = Above-pairs less t o e vals a in
      record {
        coherent_rest = record {
          sorted = r;
          agrees = λ p k. rw (find-forget k e q.meta) (elim (Bool-cases (o == p && e == k)) [
            | inl y ↦ ground (arith, y, z)
            | inr n ↦ ground (arith, n, g p k, ap (λ (x : Option ℕ). here x p) f)
          ]);
        };
        rest = λ j. find-forget j e q.meta;
        least = (
          o,
          f,
          λ j p n h.
              Above-before o e p j vals a
                (ground (arith, n, g p j, ap (λ (x : Option ℕ). here x p) h)),
        );
      }

  -- `pop`.
  abbrev pub Pops : PriorityQueue → Option (ℕ × PriorityQueue) → Type 0
  Pops q r =
      ((r ≡ none) × ((j : ℕ) → find j q.meta ≡ none))
      ⊎ ((e : ℕ) × (q' : PriorityQueue) × (r ≡ some (e, q')) × Popped less e q q')

  nothing_in : (f : Option ℕ) → ((o : ℕ) → 0 ≡ here f o) → f ≡ none
  nothing_in none h = refl
  nothing_in (some p) h = absurd (ground (arith, h p))

  pop_front-Pops :
      (vals : List (ℕ × ℕ)) (q : PriorityQueue)
      → Coherent less q
      → q.vals ≡ vals
      → Pops q (pop_front vals q)
  unfolding pop_front
  pop_front-Pops [] q c s =
      inl (refl, λ j. nothing_in (find j q.meta) (λ o. ap (pairs o j) (sym s) ∙ c.agrees o j))
  pop_front-Pops ((o, e) ∷ vals) q c s = inr (e, _, refl, pop_front-Popped o e vals q c s)

  -- A queue whose set is in order and agrees with its map stays so over `insert`, `erase` and `pop`, and
  -- does what a map from elements to priorities does, for any strict order in which two priorities
  -- compare: `insert` gives an element the priority, whether it was in or not, and tells whether it was
  -- new; `erase` takes an element out and tells whether it was in; `pop` takes out an element that comes
  -- before all others, by priority and then by number, and fails on the empty queue alone.
  pub operations-Keep :
      (e o : ℕ) (q : PriorityQueue)
      → Coherent less q
      → Inserted less e o q (insert less e o q) × Erased less e q (erase e q) × Pops q (pop q)
  unfolding insert erase pop
  operations-Keep e o q c = (
    insert_meta-Inserted (find e q.meta) e o ((insert_pair less o e q.vals).0)
        ((insert_pair less o e q.vals).1) q c refl
        (insert_pair-InsertedPair less t o e q.vals c.sorted),
    erase_found-Erased (find e q.meta) e q c refl,
    pop_front-Pops q.vals q c refl,
  )
