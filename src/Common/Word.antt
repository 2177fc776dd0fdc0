-- ===== src/Common/Word.antt =====
-- Fixed-width unsigned integers: a value is a number below the modulus, and each operation that
-- can wrap says so. `-` on ℕ stops at 0, so a subtraction adds the modulus first.
use Prim.Native.Nat.{ℕ, ◌+◌, ◌-◌, ◌%◌, ◌<◌}
use native.Mathlib.Omega.{arith}

abbrev pub u8 : ℕ → ℕ
u8 n = n % 256

abbrev pub u16 : ℕ → ℕ
u16 n = n % 65536

abbrev pub u32_mod : ℕ
u32_mod = 4294967296

abbrev pub u32_max : ℕ
u32_max = 4294967295

abbrev pub u32 : ℕ → ℕ
u32 n = n % u32_mod

abbrev pub sub32 : ℕ → ℕ → ℕ
sub32 a b = (a + u32_mod - b) % u32_mod

pub u32-lt : (n : ℕ) → u32 n < u32_mod
u32-lt n = omega arith
