-- ===== src/Base/Words/Bits.antt =====
-- A mask with one bit: `a & (1 << k)` at variables, from the digit recursion of `bit_and`.
use Prim.Native.Nat.{
  ℕ, zero, suc, ◌+◌, ◌*◌, ◌/◌, ◌%◌, ◌^◌, ◌≤◌, min, bit_and, digits, bit_and-bitwise,
}
use mathlib.Core.Path.{◌≡◌, refl, ap, ◌∙◌, sym}
use native.Mathlib.Nat.{pow-suc, div-div-eq-div-mul}
use native.Mathlib.Omega.{arith}

abbrev common_digits : ℕ → ℕ → ℕ → ℕ
common_digits = digits (λ _. zero) min

-- Two counts of digits that both reach as far as `a` give the same result.
common_digits_enough : (n m a b : ℕ) → a ≤ n → a ≤ m → common_digits n a b ≡ common_digits m a b
common_digits_enough zero zero a b h k = refl
common_digits_enough zero (suc m) zero b h k = refl
common_digits_enough zero (suc m) (suc a) b h k = absurd (omega arith)
common_digits_enough (suc n) zero zero b h k = refl
common_digits_enough (suc n) zero (suc a) b h k = absurd (omega arith)
common_digits_enough (suc n) (suc m) zero b h k = refl
common_digits_enough (suc n) (suc m) (suc a) b h k =
    ap (λ t. t * 2 + min (suc a % 2) (b % 2))
      (common_digits_enough n m (suc a / 2) (b / 2) (omega arith) (omega arith))

lowest_digit : (a b : ℕ) → bit_and a b ≡ bit_and (a / 2) (b / 2) * 2 + min (a % 2) (b % 2)
lowest_digit zero b = omega (arith, bit_and-bitwise 0 b, bit_and-bitwise 0 (b / 2))
lowest_digit (suc a) b = omega (
  arith,
  bit_and-bitwise (suc a) b,
  bit_and-bitwise (suc a / 2) (b / 2),
  common_digits_enough a (suc a / 2) (suc a / 2) (b / 2) (omega arith) (omega arith),
)

no_digits : (n a : ℕ) → common_digits n a 0 ≡ 0
no_digits zero a = refl
no_digits (suc n) zero = refl
no_digits (suc n) (suc a) = omega (arith, no_digits n (suc a / 2))

bit_and-zero : (a : ℕ) → bit_and a 0 ≡ 0
bit_and-zero a = bit_and-bitwise a 0 ∙ no_digits a a

halve : (a k : ℕ) → a / 2 ^ suc k ≡ a / 2 / 2 ^ k
halve a k = sym (div-div-eq-div-mul a 2 (2 ^ k) ∙ ap (λ t. a / t) (omega (arith, pow-suc 2 k)))

half_pow : (k : ℕ) → 2 ^ suc k / 2 ≡ 2 ^ k
half_pow k = omega (arith, pow-suc 2 k)

-- One bit of a mask is the digit at its place.
pub bit_and-pow : (k a : ℕ) → bit_and a (2 ^ k) ≡ a / 2 ^ k % 2 * 2 ^ k
bit_and-pow zero a = omega (arith, lowest_digit a 1, bit_and-zero (a / 2))
bit_and-pow (suc k) a = omega (
  arith,
  lowest_digit a (2 ^ suc k),
  bit_and-pow k (a / 2),
  ap (λ (t : ℕ). a / 2 ^ suc k % 2 * t) (pow-suc 2 k),
  pow-suc 2 k,
  ap (λ (t : ℕ). bit_and (a / 2) t) (half_pow k),
  ap (λ (t : ℕ). t % 2 * 2 ^ k) (halve a k),
)
