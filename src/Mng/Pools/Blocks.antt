-- ===== src/Mng/Pools/Blocks.antt =====
-- Ownership of blocks in the pools of foxxll/mng: how often a pool holds a block.
use foxxll.Prelude.{
  ℕ, suc, ◌+◌, ◌≤◌, ◌≡◌, refl, ap, Bool, true, false, List, [], ◌∷◌, ◌++◌, none, some, ◌==◌,
  if◌then◌else◌, length, arith, Bool-cases, inl, inr, ◌⊎◌,
}
use foxxll.Mng.Bid.{Bid, bid_eq}
use foxxll.Mng.Pools.{Request, pop_back}
use foxxll.Mng.Pools.WritePool.{
  WritePool, BusyEntry, retire, finished, unfinished, poll_any, take_request, is_requested,
}
use foxxll.Mng.Pools.PrefetchPool.{PrefetchPool, CacheEntry, lookup, remove, assign}

abbrev pub one : ℕ → ℕ → ℕ
one x b = if x == b then 1 else 0

abbrev pub occurs : ℕ → List ℕ → ℕ
occurs x [] = 0
occurs x (b ∷ bs) = one x b + occurs x bs

abbrev pub busy_occurs : ℕ → List BusyEntry → ℕ
busy_occurs x [] = 0
busy_occurs x (e ∷ es) = one x e.block + busy_occurs x es

abbrev pub cache_occurs : ℕ → List CacheEntry → ℕ
cache_occurs x [] = 0
cache_occurs x (e ∷ es) = one x e.block + cache_occurs x es

-- How often the pool holds the block.
abbrev pub write_owns : ℕ → WritePool → ℕ
write_owns x p = occurs x p.free_blocks + busy_occurs x p.busy_blocks

abbrev pub prefetch_owns : ℕ → PrefetchPool → ℕ
prefetch_owns x p = occurs x p.free_blocks + cache_occurs x p.busy_blocks

pub occurs-append : (x : ℕ) (bs cs : List ℕ) → occurs x (bs ++ cs) ≡ occurs x bs + occurs x cs
occurs-append x [] cs = omega arith
occurs-append x (b ∷ bs) cs = omega (arith, occurs-append x bs cs)

pub busy_occurs-append :
    (x : ℕ) (es fs : List BusyEntry)
    → busy_occurs x (es ++ fs) ≡ busy_occurs x es + busy_occurs x fs
busy_occurs-append x [] fs = omega arith
busy_occurs-append x (e ∷ es) fs = omega (arith, busy_occurs-append x es fs)

-- `back()` and `pop_back()` take one block off.
pub pop_back-Splits :
    (bs : List ℕ)
    → ((bs ≡ []) × (pop_back bs ≡ none))
      ⊎ ((cs : List ℕ) × (b : ℕ) × (pop_back bs ≡ some (cs, b)) × (bs ≡ cs ++ b ∷ []))
pop_back-Splits [] = inl (refl, refl)
pop_back-Splits (c ∷ bs) = elim (pop_back-Splits bs) [
  | inl (e, r) ↦ inr ([], c, rw (r, pop_back) refl, ap (◌∷◌ c) e)
  | inr (cs, b, r, e) ↦ inr (c ∷ cs, b, rw (r, pop_back) refl, ap (◌∷◌ c) e)
]

pub busy_occurs-retire :
    (x : ℕ) (bid : Bid) (es : List BusyEntry) → busy_occurs x (retire bid es) ≡ busy_occurs x es
unfolding retire
busy_occurs-retire x bid [] = refl
busy_occurs-retire x bid (e ∷ es) = ground (arith, busy_occurs-retire x bid es)

pub length-retire : (bid : Bid) (es : List BusyEntry) → length (retire bid es) ≡ length es
unfolding retire
length-retire bid [] = refl
length-retire bid (e ∷ es) = ap suc (length-retire bid es)

pub finished-occurs :
    (x : ℕ) (done : Request → Bool) (es : List BusyEntry)
    → occurs x (finished done es) + busy_occurs x (unfinished done es) ≡ busy_occurs x es
unfolding finished unfinished
finished-occurs x done [] = refl
finished-occurs x done (e ∷ es) = ground (arith, finished-occurs x done es)

pub length-finished :
    (done : Request → Bool) (es : List BusyEntry)
    → length (finished done es) + length (unfinished done es) ≡ length es
unfolding finished unfinished
length-finished done [] = refl
length-finished done (e ∷ es) = ground (arith, length-finished done es)

-- An entry that was taken out of the list.
pub record Taken (es : List BusyEntry) (e : BusyEntry) (rest : List BusyEntry) : Type 0 where
  pub owns : (x : ℕ) → one x e.block + busy_occurs x rest ≡ busy_occurs x es
  pub count : suc (length rest) ≡ length es

cons_Taken :
    (f e : BusyEntry) (es rest : List BusyEntry) → Taken es e rest → Taken (f ∷ es) e (f ∷ rest)
cons_Taken f e es rest t = record { owns = λ x. omega (arith, t.owns x); count = ap suc t.count }

pub poll_any-Taken :
    (done : Request → Bool) (es : List BusyEntry)
    → (poll_any done es ≡ none)
      ⊎ ((e : BusyEntry) × (rest : List BusyEntry) × (poll_any done es ≡ some (e, rest))
          × Taken es e rest)
unfolding poll_any
poll_any-Taken done [] = inl refl
poll_any-Taken done (f ∷ es) = elim (Bool-cases (done f.req)) [
  | inl y ↦ inr (f, es, rw y, record { owns = λ x. refl; count = refl })
  | inr n ↦ elim (poll_any-Taken done es) [
    | inl r ↦ inl (rw (n, r))
    | inr (e, rest, r, t) ↦ inr (e, f ∷ rest, rw (n, r), cons_Taken f e es rest t)
  ]
]

pub take_request-Taken :
    (bid : Bid) (es : List BusyEntry)
    → ((is_requested bid es ≡ false) × (take_request bid es ≡ none))
      ⊎ ((e : BusyEntry) × (rest : List BusyEntry) × (is_requested bid es ≡ true)
          × (take_request bid es ≡ some (e, rest))
          × Taken es e rest)
unfolding take_request is_requested
take_request-Taken bid [] = inl (refl, refl)
take_request-Taken bid (f ∷ es) = elim (Bool-cases (bid_eq f.bid bid)) [
  | inl y ↦ inr (f, es, rw y, rw y, record { owns = λ x. refl; count = refl })
  | inr n ↦ elim (take_request-Taken bid es) [
    | inl (m, r) ↦ inl (rw (n, m), rw (n, r))
    | inr (e, rest, m, r, t) ↦ inr (e, f ∷ rest, rw (n, m), rw (n, r), cons_Taken f e es rest t)
  ]
]

-- The map of the prefetch pool: at most one entry to a key.
abbrev pub entries : Bid → List CacheEntry → ℕ
entries bid [] = 0
entries bid (e ∷ es) = (if bid_eq e.bid bid then 1 else 0) + entries bid es

pub lookup-entries :
    (bid : Bid) (es : List CacheEntry)
    → ((lookup bid es ≡ none) × (entries bid es ≡ 0))
      ⊎ ((e : CacheEntry) × (lookup bid es ≡ some e)
          × ((x : ℕ) → one x e.block + cache_occurs x (remove bid es) ≡ cache_occurs x es)
          × (suc (length (remove bid es)) ≡ length es)
          × (suc (entries bid (remove bid es)) ≡ entries bid es))
unfolding lookup remove
lookup-entries bid [] = inl (refl, refl)
lookup-entries bid (f ∷ es) = elim (Bool-cases (bid_eq f.bid bid)) [
  | inl y ↦ inr (f, rw y refl, λ x. rw y refl, rw y refl, rw y (omega arith))
  | inr n ↦ elim (lookup-entries bid es) [
    | inl (r, z) ↦ inl (rw n r, rw n (omega (arith, z)))
    | inr (e, r, owns, count, entry) ↦ inr (
      e,
      rw n r,
      λ x. rw n (omega (arith, owns x)),
      rw n (ap suc count),
      rw (n, n) (omega (arith, entry)),
    )
  ]
]

pub entries-remove-le :
    (b bid : Bid) (es : List CacheEntry) → entries b (remove bid es) ≤ entries b es
unfolding remove
entries-remove-le b bid [] = omega arith
entries-remove-le b bid (e ∷ es) = ground (arith, entries-remove-le b bid es)

-- A new key.
pub assign-owns :
    (x : ℕ) (bid : Bid) (block : ℕ) (r : Request) (es : List CacheEntry)
    → entries bid es ≡ 0
    → cache_occurs x (assign bid block r es) ≡ cache_occurs x es + one x block
unfolding assign
assign-owns x bid block r [] h = omega arith
assign-owns x bid block r (e ∷ es) h = ground (arith, assign-owns x bid block r es)

pub length-assign :
    (bid : Bid) (block : ℕ) (r : Request) (es : List CacheEntry)
    → entries bid es ≡ 0
    → length (assign bid block r es) ≡ suc (length es)
unfolding assign
length-assign bid block r [] h = refl
length-assign bid block r (e ∷ es) h = ground (arith, length-assign bid block r es)

pub entries-assign :
    (b bid : Bid) (block : ℕ) (r : Request) (es : List CacheEntry)
    → entries bid es ≡ 0
    → entries b (assign bid block r es) ≡ entries b es + (if bid_eq bid b then 1 else 0)
unfolding assign
entries-assign b bid block r [] h = omega arith
entries-assign b bid block r (e ∷ es) h = ground (arith, entries-assign b bid block r es)

pub lookup-assign :
    (bid : Bid) (block : ℕ) (r : Request) (es : List CacheEntry)
    → entries bid es ≡ 0
    → lookup bid (assign bid block r es) ≡ some (record { bid = bid; block = block; req = r })
unfolding assign lookup
lookup-assign bid block r [] h = ground arith
lookup-assign bid block r (e ∷ es) h = ground (arith, lookup-assign bid block r es)
