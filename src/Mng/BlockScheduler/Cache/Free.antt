-- ===== src/Mng/BlockScheduler/Cache/Free.antt =====
-- A free internal block, or a new array of them (`get_free_internal_block` of the scheduler,
-- foxxll/mng/block_scheduler.hpp).
use foxxll.Prelude.{ℕ, ◌+◌, ◌-◌, ◌<◌, ◌≡◌, ◌≢◌, ltb, inl, inr, arith, Bool-cases, List, ◌∷◌, ◌++◌}
use foxxll.Mng.BlockScheduler.{SwappableBlock}
use foxxll.Mng.BlockScheduler.Cache.{run_of}
use foxxll.Mng.BlockScheduler.Cache.Base.{
  count, count-append, count-run_of_below, count-run_of_above, count-run_of-le, Base,
}

-- The top of the free list is taken.
pub record Taken (i : ℕ) (free : List ℕ) (new : ℕ) (blocks : ℕ → SwappableBlock) (new_external : ℕ)
    : Type 0 where
  pub base : Base free new blocks new_external
  pub positive : 0 < i
  pub old : i < new
  pub not_free : count i free ≡ 0
  pub not_held : (j : ℕ) → (blocks j).internal_data ≢ i

pub take-Taken :
    (i : ℕ) (free : List ℕ) (new : ℕ) (blocks : ℕ → SwappableBlock) (new_external : ℕ)
    → Base (i ∷ free) new blocks new_external
    → Taken i free new blocks new_external
take-Taken i free new blocks new_external v =
    let pos : 0 < i = ground (arith, v.free_positive) in
    record {
      base = record {
        positive = v.positive;
        positive_external = v.positive_external;
        free_once = λ x. omega (arith, v.free_once x);
        free_positive = omega (arith, v.free_positive);
        free_old = λ x h. omega (arith, v.free_old x h);
        held_old = v.held_old;
        held_not_free = λ j h. omega (arith, v.held_not_free j h);
        held_once = v.held_once;
        external_old = v.external_old;
        external_once = v.external_once;
        dirty_internal = v.dirty_internal;
        acquired_internal = v.acquired_internal;
      };
      positive = pos;
      old = ground (arith, v.free_old i);
      not_free = ground (arith, v.free_once i);
      not_held = λ j e. ground (arith, v.held_not_free j (omega (arith, e, pos)), e);
    }

-- An array of `n` blocks from `new` on.
pub allocate-Taken :
    (n : ℕ) (free : List ℕ) (new : ℕ) (blocks : ℕ → SwappableBlock) (new_external : ℕ)
    → 0 < n
    → Base free new blocks new_external
    → Taken new (run_of (new + 1) (n - 1) ++ free) (new + n) blocks new_external
allocate-Taken n free new blocks new_external h v =
    let c = λ (x : ℕ). count-append x (run_of (new + 1) (n - 1)) free in
    let below = λ (x : ℕ) (l : x < new + 1). count-run_of_below x (n - 1) (new + 1) l in
    record {
      base = record {
        positive = omega (arith, v.positive);
        positive_external = v.positive_external;
        free_once = λ x. elim (Bool-cases (ltb x (new + 1))) [
          | inl y ↦ omega (arith, c x, below x (ground (arith, y)), v.free_once x)
          | inr f ↦
              omega
                (arith, c x, count-run_of-le x (n - 1) (new + 1), v.free_old x (ground (arith, f)))
        ];
        free_positive = omega (arith, c 0, below 0 (omega arith), v.free_positive);
        free_old = λ x l. omega (
          arith,
          c x,
          count-run_of_above x (n - 1) (new + 1) (omega (arith, l, h)),
          v.free_old x (omega (arith, l)),
        );
        held_old = λ j. omega (arith, v.held_old j);
        held_not_free = λ j p. omega (
          arith,
          c ((blocks j).internal_data),
          below ((blocks j).internal_data) (omega (arith, v.held_old j)),
          v.held_not_free j p,
        );
        held_once = v.held_once;
        external_old = v.external_old;
        external_once = v.external_once;
        dirty_internal = v.dirty_internal;
        acquired_internal = v.acquired_internal;
      };
      positive = v.positive;
      old = omega (arith, h);
      not_free = omega (arith, c new, below new (omega arith), v.free_old new (omega arith));
      not_held = λ j e. omega (arith, v.held_old j, e);
    }
