-- ===== src/Common/UintPair.antt =====
-- `uint_pair` (foxxll/common/uint_types.hpp): an integer of 40 or 48 bits in a low part of 32 bits and
-- a high part of 8 or 16 bits.
pub mod Laws
pub mod Tests
use foxxll.Prelude.{
  ℕ, ◌+◌, ◌-◌, ◌*◌, ◌/◌, ◌%◌, Bool, ◌&&◌, ◌||◌, not, ltb, leb, ◌==◌, if◌then◌else◌,
}

-- The instances of the template.
pub data HighType : Type 0 where
  uint8_t uint16_t : HighType

-- A value of the low part is below this, and `low_max()` is one less.
abbrev pub low_count : ℕ
low_count = 4294967296

abbrev pub high_count : HighType → ℕ
high_count uint8_t = 256
high_count uint16_t = 65536

pub record UintPair : Type 0 where
  pub low : ℕ
  pub high : ℕ

-- A conversion from `uint32_t`.
unfoldable pub from_u32 : ℕ → UintPair
from_u32 a = record { low = a; high = 0 }

-- A conversion from `int32_t`, given by its 32 bits: the sign is extended.
unfoldable pub from_i32 : HighType → ℕ → UintPair
from_i32 h a =
    if ltb a 2147483648
    then record { low = a; high = 0 }
    else record { low = a; high = high_count h - 1 }

-- A conversion from `uint64_t`; masks and shifts are remainders and quotients.
unfoldable pub from_u64 : HighType → ℕ → UintPair
from_u64 h a = record { low = a % low_count; high = a / low_count % high_count h }

-- `ull`, `u64` and the conversion to `uint64_t`.
unfoldable pub u64 : UintPair → ℕ
u64 p = p.high * low_count + p.low

unfoldable pub increment : HighType → UintPair → UintPair
increment h p =
    if p.low == low_count - 1
    then record { low = 0; high = (p.high + 1) % high_count h }
    else record { low = p.low + 1; high = p.high }

unfoldable pub decrement : HighType → UintPair → UintPair
decrement h p =
    if p.low == 0
    then record { low = low_count - 1; high = (p.high + high_count h - 1) % high_count h }
    else record { low = p.low - 1; high = p.high }

unfoldable pub add : HighType → UintPair → UintPair → UintPair
add h a b =
    let sum = a.low + b.low in
    record {
      low = sum % low_count;
      high = (a.high + b.high + sum / low_count % high_count h) % high_count h;
    }

unfoldable pub eq : UintPair → UintPair → Bool
eq a b = (a.low == b.low) && (a.high == b.high)

unfoldable pub ne : UintPair → UintPair → Bool
ne a b = not (a.low == b.low) || not (a.high == b.high)

unfoldable pub lt : UintPair → UintPair → Bool
lt a b = ltb a.high b.high || (a.high == b.high) && ltb a.low b.low

unfoldable pub le : UintPair → UintPair → Bool
le a b = ltb a.high b.high || (a.high == b.high) && leb a.low b.low

unfoldable pub gt : UintPair → UintPair → Bool
gt a b = ltb b.high a.high || (a.high == b.high) && ltb b.low a.low

unfoldable pub ge : UintPair → UintPair → Bool
ge a b = ltb b.high a.high || (a.high == b.high) && leb b.low a.low

unfoldable pub min : UintPair
min = record { low = 0; high = 0 }

unfoldable pub max : HighType → UintPair
max h = record { low = low_count - 1; high = high_count h - 1 }
