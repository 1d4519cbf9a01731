-- ===== src/Mng/AllocStrategy/Spread.antt =====
-- How the strategies of foxxll/mng/block_alloc_strategy.hpp go round the disks.
use foxxll.Prelude.{ℕ, ◌+◌, ◌%◌, ◌<◌, ◌≤◌, ◌≡◌, ◌≢◌, List, get_or, arith, ℤ, to_u64, add64, u64_mod}
use native.Mathlib.Nat.{mod-lt}
use foxxll.Mng.AllocStrategy.{
  Strategy, striping, simple_random, random_cyclic, offset_allocator, disk_of,
}

mod_apart : (d i j : ℕ) → 0 < d → i < j → j < i + d → i % d ≡ j % d → ⊥
mod_apart d i j p h k e = grind arith

-- Where the sums do not wrap around in between, they are as far apart as what is added.
add64_near :
    (o i j : ℕ) → i < j → j < u64_mod → add64 i o < add64 j o → add64 j o + i ≡ add64 i o + j
add64_near o i j h k l = omega (arith, h, k, l)

-- What `std::shuffle` makes of 0, 1, ..., n - 1: each of these numbers once.
pub record Permutes (n : ℕ) (perm : List ℕ) : Type 0 where
  pub below : (k : ℕ) → k < n → get_or perm k 0 < n
  pub once : (j k : ℕ) → j < n → k < n → get_or perm j 0 ≡ get_or perm k 0 → j ≡ k

-- The strategies that go round the disks [begin, begin + diff), maybe from an offset.
pub data Cyclic : Strategy → ℕ → ℕ → Type 0 where
  in_order : {begin diff : ℕ} → Cyclic (striping begin diff) begin diff
  shifted : {begin diff offset : ℕ} → Cyclic (simple_random begin diff offset) begin diff
  permuted :
      {begin diff : ℕ} {perm : List ℕ}
      → Permutes diff perm
      → Cyclic (random_cyclic begin diff perm) begin diff
  moved :
      {base : Strategy} {begin diff : ℕ} {offset : ℤ}
      → Cyclic base begin diff
      → Cyclic (offset_allocator base offset) begin diff

-- No sum that the strategy computes wraps around between the blocks i and j.
unfoldable pub Ordered : Strategy → ℕ → ℕ → Type 0
Ordered (simple_random begin diff offset) i j = add64 i offset < add64 j offset
Ordered (offset_allocator base offset) i j =
    (add64 (to_u64 offset) i < add64 (to_u64 offset) j)
    × Ordered base (add64 (to_u64 offset) i) (add64 (to_u64 offset) j)
Ordered _ i j = Unit {0}

pub record Spreads (s : Strategy) (begin diff : ℕ) : Type 0 where
  pub inside : (i : ℕ) → (begin ≤ disk_of s i) × (disk_of s i < begin + diff)
  pub apart :
      (i j : ℕ) → i < j → j < i + diff → j < u64_mod → Ordered s i j → disk_of s i ≢ disk_of s j

Cyclic-Spreads :
    (s : Strategy) (begin diff : ℕ) → Cyclic s begin diff → 0 < diff → Spreads s begin diff
unfolding disk_of Ordered
Cyclic-Spreads _ begin diff in_order p = record {
  inside = λ i. (omega arith, omega (arith, mod-lt i p));
  apart = λ i j h k m o e. mod_apart diff i j p h k (omega (arith, e));
}
Cyclic-Spreads _ begin diff (shifted {offset = o}) p = record {
  inside = λ i. (omega arith, omega (arith, mod-lt (add64 i o) p));
  apart = λ i j h k m l e.
      let d = add64_near o i j h m (omega (arith, l)) in
      mod_apart diff (add64 i o) (add64 j o) p l (omega (arith, k, d)) (omega (arith, e));
}
Cyclic-Spreads _ begin diff (permuted m) p = record {
  inside = λ i. (omega arith, omega (arith, m.below (i % diff) (mod-lt i p)));
  apart = λ i j h k l o e.
      mod_apart diff i j p h k
        (m.once (i % diff) (j % diff) (mod-lt i p) (mod-lt j p) (omega (arith, e)));
}
Cyclic-Spreads _ begin diff (moved {base = b} {offset = o} c) p =
    let s = Cyclic-Spreads b begin diff c p in
    record {
      inside = λ i. s.inside (add64 (to_u64 o) i);
      apart = λ i j h k m (l, r).
          let d = add64_near (to_u64 o) i j h m (omega (arith, l)) in
          s.apart (add64 (to_u64 o) i) (add64 (to_u64 o) j) l (omega (arith, k, d)) (omega arith) r;
    }

-- A strategy that goes round a range of disks, be it in order, from a random offset, by a random
-- permutation or moved by `offset_allocator`, however often, puts two blocks that are less than the
-- number of disks apart on different disks, both in the range, where their indices are below 2 ^ 64 and
-- no sum with an offset wraps around between the two.
pub Cyclic-disk_of :
    (s : Strategy) (begin diff i j : ℕ)
    → Cyclic s begin diff
    → i < j
    → j < i + diff
    → j < u64_mod
    → Ordered s i j
    → ((begin ≤ disk_of s i) × (disk_of s i < begin + diff))
      × ((begin ≤ disk_of s j) × (disk_of s j < begin + diff))
      × (disk_of s i ≢ disk_of s j)
Cyclic-disk_of s begin diff i j c h k m o =
    let a = Cyclic-Spreads s begin diff c (omega (arith, h, k)) in
    (a.inside i, a.inside j, a.apart i j h k m o)
