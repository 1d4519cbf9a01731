-- ===== src/Common/UintPair/Tests.antt =====
-- `uint_pair` at concrete values.
use foxxll.Prelude.{◌≡◌, true, arith}
use foxxll.Common.UintPair.{UintPair, uint8_t, add, increment, decrement, u64, le, min, max}
use foxxll.Common.UintPair.Laws.{
  IsValid, Stands, Compares, add-Stands, increment-decrement, u64-Compares,
}

-- The low part is at its end.
abbrev carries : UintPair
carries = record { low = 4294967295; high = 3 }

abbrev last : UintPair
last = record { low = 4294967295; high = 255 }

carries-IsValid : IsValid uint8_t carries
carries-IsValid = record { low_fits = omega arith; high_fits = omega arith }

last-IsValid : IsValid uint8_t last
last-IsValid = record { low_fits = omega arith; high_fits = omega arith }

add-Stands_example : Stands uint8_t 17179869182 (add uint8_t carries last)
unfolding u64
add-Stands_example = add-Stands uint8_t carries last carries-IsValid last-IsValid

increment-decrement_example :
    Stands uint8_t 0 (increment uint8_t last)
    × Stands uint8_t 1099511627774 (decrement uint8_t last)
    × (decrement uint8_t (increment uint8_t last) ≡ last)
unfolding u64
increment-decrement_example = increment-decrement uint8_t last last-IsValid

u64-Compares_example :
    Compares carries last × (le min carries ≡ true) × (le carries (max uint8_t) ≡ true)
u64-Compares_example = u64-Compares uint8_t carries last carries-IsValid last-IsValid
