-- ===== src/Mng/BlockScheduler/Identifiers.antt =====
-- `allocate_swappable_block` and `free_swappable_block` of foxxll/mng/block_scheduler.hpp: identifiers of
-- swappable blocks, used again from the smallest on.
use foxxll.Prelude.{
  ℕ, ◌+◌, ◌≤◌, ◌<◌, ◌≡◌, ◌≢◌, refl, ◌∙◌, ap, true, false, List, [], ◌∷◌, Option, none, some, leb,
  ◌==◌, if◌then◌else◌, inl, inr, ◌⊎◌, arith, Bool-cases, eq-or-ne, ◌>>=◌,
}
use foxxll.Mng.BlockScheduler.{uninitialized_block, is_acquired}
use foxxll.Mng.BlockScheduler.Evictable.{Evictable}
use foxxll.Mng.BlockScheduler.Cache.{Cache, deinitialize}
use foxxll.Mng.BlockScheduler.Cache.Base.{count}
use foxxll.Mng.BlockScheduler.Cache.Valid.{content, Consistent}
use foxxll.Mng.BlockScheduler.Cache.Deinitializes.{deinitialize-Deinitializes}

-- `free_swappable_blocks.push`: the priority queue is the list of its elements in order.
unfoldable pub push : ℕ → List ℕ → List ℕ
push k [] = k ∷ []
push k (x ∷ xs) = let rest = push k xs in if leb k x then k ∷ x ∷ xs else x ∷ rest

-- The free identifiers rise from `low` on and are below `size`.
abbrev pub Rising : ℕ → List ℕ → ℕ → Type 0
Rising low [] size = Unit {0}
Rising low (x ∷ xs) size = (low ≤ x) × (x < size) × Rising (x + 1) xs size

Rising-count :
    (j low size : ℕ) (xs : List ℕ)
    → Rising low xs size
    → (j < low → count j xs ≡ 0) × (size ≤ j → count j xs ≡ 0)
Rising-count j low size [] r = ((λ h. refl), λ h. refl)
Rising-count j low size (x ∷ xs) (a, b, r) =
    let (f, g) = Rising-count j (x + 1) size xs r in
    ((λ h. ground (arith, h, a, f (omega (arith, h, a)))), λ h. ground (arith, h, b, g h))

Rising-weaken :
    (low low' size size' : ℕ) (xs : List ℕ)
    → low' ≤ low
    → size ≤ size'
    → Rising low xs size
    → Rising low' xs size'
Rising-weaken low low' size size' [] h g r = tt
Rising-weaken low low' size size' (x ∷ xs) h g (a, b, r) = (
  omega (arith, h, a),
  omega (arith, g, b),
  Rising-weaken (x + 1) (x + 1) size size' xs (omega arith) g r,
)

push-Rising :
    (k low size : ℕ) (xs : List ℕ)
    → Rising low xs size
    → low ≤ k
    → k < size
    → count k xs ≡ 0
    → Rising low (push k xs) size
unfolding push
push-Rising k low size [] r l h n = (l, h, tt)
push-Rising k low size (x ∷ xs) (a, b, r) l h n = elim (Bool-cases (leb k x)) [
  | inl y ↦ let g : k < x = ground (arith, y, n) in rw y (l, h, (omega (arith, g), b, r))
  | inr f ↦ rw f (a, b, push-Rising k (x + 1) size xs r (ground (arith, f)) h (omega (arith, n)))
]

count-push : (j k : ℕ) (xs : List ℕ) → count j (push k xs) ≡ (if j == k then 1 else 0) + count j xs
unfolding push
count-push j k [] = refl
count-push j k (x ∷ xs) = elim (Bool-cases (leb k x)) [
  | inl y ↦ rw y refl
  | inr f ↦ rw f (omega (arith, count-push j k xs))
]

module _ ⦃evictable : Evictable⦄ where
  -- `size` is that of the vector of swappable blocks.
  pub record Identifiers : Type 0 where
    pub cache : Cache
    pub size : ℕ
    pub free_swappable_blocks : List ℕ

  unfoldable pub take_identifier : List ℕ → Identifiers → ℕ × Identifiers
  take_identifier [] s = (s.size, record s { size = s.size + 1 })
  take_identifier (k ∷ ks) s = (k, record s { free_swappable_blocks = ks })

  unfoldable pub allocate_swappable_block : Identifiers → ℕ × Identifiers
  allocate_swappable_block s = take_identifier s.free_swappable_blocks s

  unfoldable pub free_swappable_block : ℕ → Identifiers → Option Identifiers
  free_swappable_block k s = do
    c ← deinitialize k s.cache
    some (record s { cache = c; free_swappable_blocks = push k s.free_swappable_blocks })

  -- An identifier that has been handed out and not been freed.
  abbrev pub IsUsed : ℕ → Identifiers → Type 0
  IsUsed k s = (k < s.size) × (count k s.free_swappable_blocks ≡ 0)

  pub record IsValid (s : Identifiers) : Type 0 where
    pub consistent : Consistent s.cache
    pub rising : Rising 0 s.free_swappable_blocks s.size
    pub fresh :
        (k : ℕ)
        → 0 < count k s.free_swappable_blocks
        → s.cache.swappable_blocks k ≡ uninitialized_block
    pub beyond : (k : ℕ) → s.size ≤ k → s.cache.swappable_blocks k ≡ uninitialized_block

  pub record Allocated (s : Identifiers) (k : ℕ) (s' : Identifiers) : Type 0 where
    pub valid : IsValid s'
    pub was_unused : IsUsed k s → ⊥
    pub uninitialized : s'.cache.swappable_blocks k ≡ uninitialized_block
    pub now_used : IsUsed k s'
    pub others : (j : ℕ) → j ≢ k → IsUsed j s → IsUsed j s'
    pub smallest : (j : ℕ) → 0 < count j s.free_swappable_blocks → k ≤ j
    pub same_cache : s'.cache ≡ s.cache

  take_identifier-Allocated :
      (free : List ℕ) (s : Identifiers)
      → IsValid s
      → s.free_swappable_blocks ≡ free
      → Allocated s ((take_identifier free s).0) ((take_identifier free s).1)
  unfolding take_identifier
  take_identifier-Allocated [] s v e = record {
    valid = record {
      consistent = v.consistent;
      rising =
          Rising-weaken 0 0 s.size (s.size + 1) s.free_swappable_blocks (omega arith) (omega arith)
            v.rising;
      fresh = v.fresh;
      beyond = λ k h. v.beyond k (omega (arith, h));
    };
    was_unused = λ u. omega (arith, u.0);
    uninitialized = v.beyond s.size (omega arith);
    now_used = (omega arith, ap (count s.size) e);
    others = λ j n u. (omega (arith, u.0), u.1);
    smallest = λ j h. absurd (omega (arith, h, ap (count j) e));
    same_cache = refl;
  }
  take_identifier-Allocated (k ∷ ks) s v e =
      let r : Rising 0 (k ∷ ks) s.size = rw e at v.rising in
      let n = λ (j : ℕ). ap (count j) e in
      let above = λ (j : ℕ). Rising-count j (k + 1) s.size ks (r.2) in
      let mine : 0 < count k s.free_swappable_blocks = ground (arith, n k) in
      record {
        valid = record {
          consistent = v.consistent;
          rising = Rising-weaken (k + 1) 0 s.size s.size ks (omega arith) (omega arith) (r.2);
          fresh = λ j h. v.fresh j (ground (arith, n j, h));
          beyond = v.beyond;
        };
        was_unused = λ u. omega (arith, mine, u.1);
        uninitialized = v.fresh k mine;
        now_used = (r.1, (above k).0 (omega arith));
        others = λ j d u. (u.0, omega (arith, n j, u.1));
        smallest = λ j h. elim (Bool-cases (leb k j)) [
          | inl y ↦ ground (arith, y)
          | inr f ↦ absurd (ground (arith, n j, h, f, (above j).0 (ground (arith, f))))
        ];
        same_cache = refl;
      }

  pub record Freed (k : ℕ) (s s' : Identifiers) : Type 0 where
    pub valid_after : IsValid s'
    pub now_free : count k s'.free_swappable_blocks ≡ 1
    pub others_used : (j : ℕ) → j ≢ k → IsUsed j s → IsUsed j s'
    pub others_same :
        (j : ℕ)
        → j ≢ k
        → (s'.cache.swappable_blocks j ≡ s.cache.swappable_blocks j)
          × (content j s'.cache ≡ content j s.cache)

  -- Under the same conditions free_swappable_block of an identifier that is in use, whose block is not
  -- acquired, keeps them, makes the identifier free again, once, and leaves all others in use and their
  -- blocks and data the same. It fails exactly if the block is acquired.
  pub free_swappable_block-Freed :
      (k : ℕ) (s : Identifiers)
      → IsValid s
      → IsUsed k s
      → ((is_acquired (s.cache.swappable_blocks k) ≡ false)
          × (s' : Identifiers) × (free_swappable_block k s ≡ some s')
          × Freed k s s')
        ⊎ ((is_acquired (s.cache.swappable_blocks k) ≡ true) × (free_swappable_block k s ≡ none))
  unfolding free_swappable_block
  free_swappable_block-Freed k s v (low, out) =
      let n = λ (j : ℕ). count-push j k s.free_swappable_blocks in
      elim (deinitialize-Deinitializes k s.cache v.consistent) [
        | inr (a, e) ↦ inr (a, rw e refl)
        | inl (a, c, e, d) ↦ inl (
          a,
          record s { cache = c; free_swappable_blocks = push k s.free_swappable_blocks },
          rw e refl,
          record {
            valid_after = record {
              consistent = d.consistent;
              rising =
                  push-Rising k 0 s.size s.free_swappable_blocks v.rising (omega arith) low out;
              fresh = λ j h. elim (eq-or-ne j k) [
                | inl x ↦ rw x d.fresh
                | inr x ↦ (d.others j x).0 ∙ v.fresh j (ground (arith, n j, h, x))
              ];
              beyond = λ j h. (d.others j (λ x. omega (arith, x, h, low))).0 ∙ v.beyond j h;
            };
            now_free = ground (arith, n k, out);
            others_used = λ j x u. (u.0, ground (arith, n j, u.1, x));
            others_same = d.others;
          },
        )
      ]

  -- If the scheduler is consistent, the free identifiers are below the number of blocks, each once, and
  -- the blocks of those and of all numbers beyond are uninitialized, then allocate_swappable_block keeps that true and gives an
  -- identifier that was not in use, is in use then, and has an uninitialized block; it is the smallest
  -- free one if there is any. All identifiers in use before stay so, and the blocks are the same.
  pub allocate_swappable_block-Allocated :
      (s : Identifiers)
      → IsValid s
      → Allocated s ((allocate_swappable_block s).0) ((allocate_swappable_block s).1)
  unfolding allocate_swappable_block
  allocate_swappable_block-Allocated s v =
      take_identifier-Allocated s.free_swappable_blocks s v refl
