-- ===== src/Mng/BlockScheduler/Cache/Base.antt =====
-- Which internal and external blocks the swappable blocks of foxxll/mng/block_scheduler.hpp have, and
-- which are free.
use foxxll.Prelude.{
  ℕ, zero, suc, ◌+◌, ◌≤◌, ◌<◌, ◌≡◌, ◌≢◌, refl, sym, ◌∙◌, subst, true, List, [], ◌∷◌, ◌++◌, ◌==◌,
  if◌then◌else◌, inl, inr, arith, update, update_self, update_ne, eq-or-ne,
}
use foxxll.Mng.BlockScheduler.{SwappableBlock}
use foxxll.Mng.BlockScheduler.Cache.{run_of}

abbrev pub count : ℕ → List ℕ → ℕ
count x [] = 0
count x (y ∷ ys) = (if x == y then 1 else 0) + count x ys

pub count-append : (x : ℕ) (ys zs : List ℕ) → count x (ys ++ zs) ≡ count x ys + count x zs
count-append x [] zs = omega arith
count-append x (y ∷ ys) zs = omega (arith, count-append x ys zs)

pub count-run_of_below : (x n first : ℕ) → x < first → count x (run_of first n) ≡ 0
unfolding run_of
count-run_of_below x zero first h = refl
count-run_of_below x (suc n) first h =
    ground (arith, h, count-run_of_below x n (first + 1) (omega (arith, h)))

pub count-run_of_above : (x n first : ℕ) → first + n ≤ x → count x (run_of first n) ≡ 0
unfolding run_of
count-run_of_above x zero first h = refl
count-run_of_above x (suc n) first h =
    ground (arith, h, count-run_of_above x n (first + 1) (omega (arith, h)))

pub count-run_of-le : (x n first : ℕ) → count x (run_of first n) ≤ 1
unfolding run_of
count-run_of-le x zero first = omega arith
count-run_of-le x (suc n) first = elim (eq-or-ne x first) [
  | inl e ↦ ground (arith, e, count-run_of_below x n (first + 1) (omega (arith, e)))
  | inr d ↦ ground (arith, d, count-run_of-le x n (first + 1))
]

-- Every internal block is free or held by one swappable block, and every external block is held by
-- one; `new` and `new_external` are not in use yet.
pub record Base (free : List ℕ) (new : ℕ) (blocks : ℕ → SwappableBlock) (new_external : ℕ)
    : Type 0 where
  pub positive : 0 < new
  pub positive_external : 0 < new_external
  pub free_once : (i : ℕ) → count i free ≤ 1
  pub free_positive : count 0 free ≡ 0
  pub free_old : (i : ℕ) → new ≤ i → count i free ≡ 0
  pub held_old : (j : ℕ) → (blocks j).internal_data < new
  pub held_not_free :
      (j : ℕ) → 0 < (blocks j).internal_data → count (blocks j).internal_data free ≡ 0
  pub held_once :
      (j k : ℕ)
      → 0 < (blocks j).internal_data
      → (blocks j).internal_data ≡ (blocks k).internal_data
      → j ≡ k
  pub external_old : (j : ℕ) → (blocks j).external_data < new_external
  pub external_once :
      (j k : ℕ)
      → 0 < (blocks j).external_data
      → (blocks j).external_data ≡ (blocks k).external_data
      → j ≡ k
  pub dirty_internal : (j : ℕ) → (blocks j).dirty ≡ true → 0 < (blocks j).internal_data
  pub acquired_internal : (j : ℕ) → 0 < (blocks j).reference_count → 0 < (blocks j).internal_data

-- What a block has to meet to stand in place of block `k`.
pub record Fits (k : ℕ) (b : SwappableBlock) (free : List ℕ) (new : ℕ) (blocks : ℕ → SwappableBlock)
    (new_external : ℕ) : Type 0 where
  pub held_old : b.internal_data < new
  pub held_not_free : 0 < b.internal_data → count b.internal_data free ≡ 0
  pub held_once : (j : ℕ) → j ≢ k → 0 < b.internal_data → b.internal_data ≢ (blocks j).internal_data
  pub external_old : b.external_data < new_external
  pub external_once :
      (j : ℕ) → j ≢ k → 0 < b.external_data → b.external_data ≢ (blocks j).external_data
  pub dirty_internal : b.dirty ≡ true → 0 < b.internal_data
  pub acquired_internal : 0 < b.reference_count → 0 < b.internal_data

-- A property of each block after an update.
pub update-each :
    (P : ℕ → SwappableBlock → Type 0) (k : ℕ) (b : SwappableBlock) (blocks : ℕ → SwappableBlock)
    → P k b
    → ((j : ℕ) → j ≢ k → P j (blocks j))
    → (j : ℕ) → P j (update k b blocks j)
update-each P k b blocks h o j = elim (eq-or-ne j k) [
  | inl e ↦
      subst (λ (x : ℕ). P x (update k b blocks x)) (sym e)
        (subst (P k) (sym (update_self k b blocks)) h)
  | inr d ↦ subst (P j) (sym (update_ne k b blocks j d)) (o j d)
]

module _ (free : List ℕ) (new : ℕ) (blocks : ℕ → SwappableBlock) (new_external : ℕ)
    (v : Base free new blocks new_external) where
  update_once :
      (f : SwappableBlock → ℕ) (k : ℕ) (b : SwappableBlock)
      → ((j l : ℕ) → 0 < f (blocks j) → f (blocks j) ≡ f (blocks l) → j ≡ l)
      → ((j : ℕ) → j ≢ k → 0 < f b → f b ≢ f (blocks j))
      → (j l : ℕ) → 0 < f (update k b blocks j)
      → f (update k b blocks j) ≡ f (update k b blocks l)
      → j ≡ l
  update_once f k b o n j l = elim (eq-or-ne j k) [
    | inl e ↦ elim (eq-or-ne l k) [
      | inl g ↦ λ h s. e ∙ sym g
      | inr d ↦ rw (e, update_self k b blocks, update_ne k b blocks l d) (λ h s. absurd (n l d h s))
    ]
    | inr c ↦ elim (eq-or-ne l k) [
      | inl g ↦
          rw (g, update_self k b blocks, update_ne k b blocks j c)
            (λ h s. absurd (n j c (subst (λ (x : ℕ). 0 < x) s h) (sym s)))
      | inr d ↦ rw (update_ne k b blocks j c, update_ne k b blocks l d) (o j l)
    ]
  ]

  pub Base-update :
      (k : ℕ) (b : SwappableBlock)
      → Fits k b free new blocks new_external
      → Base free new (update k b blocks) new_external
  Base-update k b t = record {
    positive = v.positive;
    positive_external = v.positive_external;
    free_once = v.free_once;
    free_positive = v.free_positive;
    free_old = v.free_old;
    held_old =
        update-each (λ j x. x.internal_data < new) k b blocks t.held_old (λ j d. v.held_old j);
    held_not_free =
        update-each (λ j x. 0 < x.internal_data → count x.internal_data free ≡ 0) k b blocks
          t.held_not_free (λ j d. v.held_not_free j);
    held_once = update_once (λ x. x.internal_data) k b v.held_once t.held_once;
    external_old =
        update-each (λ j x. x.external_data < new_external) k b blocks t.external_old
          (λ j d. v.external_old j);
    external_once = update_once (λ x. x.external_data) k b v.external_once t.external_once;
    dirty_internal =
        update-each (λ j x. x.dirty ≡ true → 0 < x.internal_data) k b blocks t.dirty_internal
          (λ j d. v.dirty_internal j);
    acquired_internal =
        update-each (λ j x. 0 < x.reference_count → 0 < x.internal_data) k b blocks
          t.acquired_internal (λ j d. v.acquired_internal j);
  }

  -- A fresh external block has been handed out.
  pub Base-more : Base free new blocks (new_external + 1)
  Base-more = record {
    positive = v.positive;
    positive_external = omega arith;
    free_once = v.free_once;
    free_positive = v.free_positive;
    free_old = v.free_old;
    held_old = v.held_old;
    held_not_free = v.held_not_free;
    held_once = v.held_once;
    external_old = λ j. omega (arith, v.external_old j);
    external_once = v.external_once;
    dirty_internal = v.dirty_internal;
    acquired_internal = v.acquired_internal;
  }

  -- An internal block that no swappable block holds is put on the free list.
  pub Base-return :
      (i : ℕ)
      → 0 < i
      → i < new
      → count i free ≡ 0
      → ((j : ℕ) → (blocks j).internal_data ≢ i)
      → Base (i ∷ free) new blocks new_external
  Base-return i p o n h = record {
    positive = v.positive;
    positive_external = v.positive_external;
    free_once = λ x. ground (arith, n, v.free_once x);
    free_positive = ground (arith, p, v.free_positive);
    free_old = λ x g. ground (arith, o, g, v.free_old x g);
    held_old = v.held_old;
    held_not_free = λ j g. ground (arith, h j, v.held_not_free j g);
    held_once = v.held_once;
    external_old = v.external_old;
    external_once = v.external_once;
    dirty_internal = v.dirty_internal;
    acquired_internal = v.acquired_internal;
  }
