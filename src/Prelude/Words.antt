-- ===== src/Prelude/Words.antt =====
-- `uint64_t` arithmetic, on plain numbers whose range the invariants state, and conversions between
-- signed and unsigned integers of 64 bits.
use Prim.Native.Nat.{ℕ, ◌+◌, ◌-◌, ◌%◌, ◌^◌, ◌≤◌, ◌<◌}
use mathlib.Core.Bool.{Bool, true, false}
use mathlib.Core.Path.{◌≡◌, refl}
use foxxll.Prelude.Tests.{ltb, if◌then◌else◌}
use native.Mathlib.Omega.{arith}

-- The number of values of a `uint64_t`, or of a `size_t` on the 64-bit platforms modelled.
abbrev pub u64_mod : ℕ
u64_mod = 2 ^ 64

abbrev pub add64 : ℕ → ℕ → ℕ
add64 a b = (a + b) % u64_mod

abbrev pub sub64 : ℕ → ℕ → ℕ
sub64 a b = (a + u64_mod - b) % u64_mod

pub add64-eq : (a b : ℕ) → a + b < u64_mod → add64 a b ≡ a + b
add64-eq a b h = omega arith

pub sub64-eq : (a b : ℕ) → b ≤ a → a < u64_mod → sub64 a b ≡ a - b
sub64-eq a b h l = omega arith

-- A signed integer: `negsuc n` is - n - 1.
pub data ℤ : Type 0 where
  pos negsuc : ℕ → ℤ

-- The `uint64_t` n as an `int64_t`.
abbrev pub to_int64 : ℕ → ℤ
to_int64 n =
    if ltb (n % u64_mod) (2 ^ 63) then pos (n % u64_mod) else negsuc (u64_mod - 1 - n % u64_mod)

-- A signed integer as a `uint64_t` or a `size_t`.
abbrev pub to_u64 : ℤ → ℕ
to_u64 (pos n) = n % u64_mod
to_u64 (negsuc n) = u64_mod - 1 - n % u64_mod

-- `<` of signed integers.
abbrev pub less : ℤ → ℤ → Bool
less (pos a) (pos b) = ltb a b
less (pos a) (negsuc b) = false
less (negsuc a) (pos b) = true
less (negsuc a) (negsuc b) = ltb b a

pub less-asym : (a b : ℤ) → less a b ≡ true → less b a ≡ false
less-asym (pos a) (pos b) h = ground (arith, h)
less-asym (pos a) (negsuc b) h = absurd (cc h)
less-asym (negsuc a) (pos b) h = refl
less-asym (negsuc a) (negsuc b) h = ground (arith, h)
