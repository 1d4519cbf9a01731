-- ===== src/Common/UintPair/Laws.antt =====
-- `uint_pair` (foxxll/common/uint_types.hpp) and the integers modulo 2^40 or 2^48.
use foxxll.Prelude.{ℕ, ◌+◌, ◌-◌, ◌%◌, ◌<◌, ◌≡◌, true, not, ltb, leb, ◌==◌, if◌then◌else◌, arith}
use foxxll.Common.UintPair.{
  HighType, uint8_t, uint16_t, low_count, high_count, UintPair, from_i32, from_u64, u64, increment,
  decrement, add, eq, ne, lt, le, gt, ge, min, max,
}

-- 2^40 or 2^48.
abbrev pub count : HighType → ℕ
count uint8_t = 1099511627776
count uint16_t = 281474976710656

-- The parts are within their types.
pub record IsValid (h : HighType) (p : UintPair) : Type 0 where
  pub low_fits : p.low < low_count
  pub high_fits : p.high < high_count h

-- A value of the type that stands for `n`.
pub record Stands (h : HighType) (n : ℕ) (p : UintPair) : Type 0 where
  pub fits : IsValid h p
  pub value : u64 p ≡ n

from_u64-Stands : (h : HighType) (n : ℕ) → Stands h (n % count h) (from_u64 h n)
unfolding from_u64 u64
from_u64-Stands uint8_t n = record {
  fits = record { low_fits = omega arith; high_fits = omega arith };
  value = omega arith;
}
from_u64-Stands uint16_t n = record {
  fits = record { low_fits = omega arith; high_fits = omega arith };
  value = omega arith;
}

from_u64-u64 : (h : HighType) (p : UintPair) → IsValid h p → from_u64 h (u64 p) ≡ p
unfolding from_u64 u64
from_u64-u64 uint8_t p v = ground arith
from_u64-u64 uint16_t p v = ground arith

-- A `uint64_t` is stored modulo 2^40 or 2^48, and a stored value whose parts fit is the same after a
-- conversion to `uint64_t` and back.
pub u64-from_u64 :
    (h : HighType) (n : ℕ) (p : UintPair)
    → IsValid h p
    → Stands h (n % count h) (from_u64 h n) × (from_u64 h (u64 p) ≡ p)
u64-from_u64 h n p v = (from_u64-Stands h n, from_u64-u64 h p v)

-- The 32 bits of an `int32_t` are stored as its value modulo 2^40 or 2^48: they stand for
-- themselves below 2^31, and for 2^32 less from there on.
pub from_i32-Stands :
    (h : HighType) (a : ℕ)
    → a < low_count
    → Stands h (if ltb a 2147483648 then a else count h - low_count + a) (from_i32 h a)
unfolding from_i32 u64
from_i32-Stands uint8_t a v = ground arith
from_i32-Stands uint16_t a v = ground arith

-- The sum of two values whose parts fit is that of the integers modulo 2^40 or 2^48.
pub add-Stands :
    (h : HighType) (a b : UintPair)
    → IsValid h a
    → IsValid h b
    → Stands h ((u64 a + u64 b) % count h) (add h a b)
unfolding add u64
add-Stands uint8_t a b v w = record {
  fits = record { low_fits = omega arith; high_fits = omega arith };
  value = omega (arith, v.low_fits, v.high_fits, w.low_fits, w.high_fits);
}
add-Stands uint16_t a b v w = record {
  fits = record { low_fits = omega arith; high_fits = omega arith };
  value = omega (arith, v.low_fits, v.high_fits, w.low_fits, w.high_fits);
}

increment-Stands :
    (h : HighType) (p : UintPair) → IsValid h p → Stands h ((u64 p + 1) % count h) (increment h p)
unfolding increment u64
increment-Stands uint8_t p v = ground arith
increment-Stands uint16_t p v = ground arith

decrement-Stands :
    (h : HighType) (p : UintPair)
    → IsValid h p
    → Stands h ((u64 p + count h - 1) % count h) (decrement h p)
unfolding decrement u64
decrement-Stands uint8_t p v = ground arith
decrement-Stands uint16_t p v = ground arith

decrement-increment : (h : HighType) (p : UintPair) → IsValid h p → decrement h (increment h p) ≡ p
unfolding increment decrement
decrement-increment uint8_t p v = ground arith
decrement-increment uint16_t p v = ground arith

-- From a value whose parts fit, `++` and `--` add and subtract one modulo 2^40 or 2^48, through the
-- carry into the high part and the wrap-around at both ends, and `--` undoes `++`.
pub increment-decrement :
    (h : HighType) (p : UintPair)
    → IsValid h p
    → Stands h ((u64 p + 1) % count h) (increment h p)
      × Stands h ((u64 p + count h - 1) % count h) (decrement h p)
      × (decrement h (increment h p) ≡ p)
increment-decrement h p v =
    (increment-Stands h p v, decrement-Stands h p v, decrement-increment h p v)

-- The comparisons of two values are those of the integers that they stand for.
pub record Compares (a b : UintPair) : Type 0 where
  pub eq_lem : eq a b ≡ (u64 a == u64 b)
  pub ne_lem : ne a b ≡ not (u64 a == u64 b)
  pub lt_lem : lt a b ≡ ltb (u64 a) (u64 b)
  pub le_lem : le a b ≡ leb (u64 a) (u64 b)
  pub gt_lem : gt a b ≡ ltb (u64 b) (u64 a)
  pub ge_lem : ge a b ≡ leb (u64 b) (u64 a)

-- All six comparisons of values whose parts fit are those of the integers that they stand for, and
-- each value is between `min` and `max`.
pub u64-Compares :
    (h : HighType) (a b : UintPair)
    → IsValid h a
    → IsValid h b
    → Compares a b × (le min a ≡ true) × (le a (max h) ≡ true)
unfolding eq ne lt le gt ge u64 min max
u64-Compares h a b v w = (
  record {
    eq_lem = ground arith;
    ne_lem = ground arith;
    lt_lem = ground arith;
    le_lem = ground arith;
    gt_lem = ground arith;
    ge_lem = ground arith;
  },
  ground arith,
  below_max h a v,
)
  where
    below_max : (k : HighType) (c : UintPair) → IsValid k c → le c (max k) ≡ true
    below_max uint8_t c x = ground arith
    below_max uint16_t c x = ground arith
