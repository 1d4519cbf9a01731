-- ===== src/Mng/AllocStrategy.antt =====
-- The allocation strategies of foxxll/mng/block_alloc_strategy.hpp: which disk the i-th block of a
-- range goes to.
pub mod Spread
pub mod Interleaved
pub mod Tests
use foxxll.Prelude.{ℕ, zero, suc, ◌+◌, ◌-◌, ◌%◌, List, [], ◌∷◌, get_or, ℤ, to_u64, add64}

-- The functors, with the fields that their `operator ()` reads. What a generator draws is given: `rng`
-- are the numbers of the draws, `perm` is the shuffled vector. The offset of `offset_allocator` is an
-- `int`; sums with an index are those of `size_t`.
pub data Strategy : Type 0 where
  striping : (begin diff : ℕ) → Strategy
  fully_random : (begin diff : ℕ) (rng : ℕ → ℕ) → Strategy
  simple_random : (begin diff offset : ℕ) → Strategy
  random_cyclic : (begin diff : ℕ) (perm : List ℕ) → Strategy
  single_disk : (disk : ℕ) → Strategy
  offset_allocator : (base : Strategy) (offset : ℤ) → Strategy

-- `operator ()`.
unfoldable pub disk_of : Strategy → ℕ → ℕ
disk_of (striping begin diff) i = begin + i % diff
disk_of (fully_random begin diff rng) i = begin + rng i % diff
disk_of (simple_random begin diff offset) i = begin + add64 i offset % diff
disk_of (random_cyclic begin diff perm) i = begin + get_or perm (i % diff) 0
disk_of (single_disk disk) i = disk
disk_of (offset_allocator base offset) i = disk_of base (add64 (to_u64 offset) i)

-- The constructors on the disks of [begin, end), and `init` with the first draw of the generator.
unfoldable pub make_striping : ℕ → ℕ → Strategy
make_striping begin end = striping begin (end - begin)

unfoldable pub make_fully_random : ℕ → ℕ → (ℕ → ℕ) → Strategy
make_fully_random begin end rng = fully_random begin (end - begin) rng

unfoldable pub make_simple_random : ℕ → ℕ → ℕ → Strategy
make_simple_random begin end draw = simple_random begin (end - begin) (draw % (end - begin))

-- 0, 1, ..., which `std::shuffle` permutes.
unfoldable pub identity_from : ℕ → ℕ → List ℕ
identity_from zero i = []
identity_from (suc n) i = i ∷ identity_from n (i + 1)

unfoldable pub make_random_cyclic : ℕ → ℕ → (List ℕ → List ℕ) → Strategy
make_random_cyclic begin end shuffle =
    random_cyclic begin (end - begin) (shuffle (identity_from (end - begin) 0))
