-- ===== src/Base/Words.antt =====
-- Machine words. A uint, an int or a uint64 is its bit pattern, below 2 ^ 32 or 2 ^ 64.
mod Bits
pub use Bits.{bit_and-pow}
use Prim.Native.Nat.{ℕ, ◌+◌, ◌-◌, ◌%◌, ◌^◌}
use mathlib.Core.Bool.{Bool}
use model_lib.Base.Tests.{ltb, if◌then◌else◌}

abbrev pub u32 : ℕ → ℕ
u32 n = n % 2 ^ 32

abbrev pub u64 : ℕ → ℕ
u64 n = n % 2 ^ 64

-- -1 as an int and as a uint64.
abbrev pub minus_one : ℕ
minus_one = 2 ^ 32 - 1

abbrev pub minus_one_64 : ℕ
minus_one_64 = 2 ^ 64 - 1

-- The sign bit of an int.
abbrev pub is_negative : ℕ → Bool
is_negative w = ltb (2 ^ 31 - 1) w

-- An int converted to a 64-bit integer.
abbrev pub sign_extend : ℕ → ℕ
sign_extend w = if is_negative w then w + (2 ^ 64 - 2 ^ 32) else w
