-- ===== src/Printf.antt =====
-- The formatted output of kernel/printk.c, with consputc of kernel/console.c, and of user/printf.c. The digits are a parameter: lower case in
-- the kernel, upper case in the user library. The variadic arguments are a function from their
-- positions, and `text_at` gives the C string at an address.
pub mod Digits
pub mod Agree
mod Tests
use model_lib.Base.{
  ℕ, zero, suc, ◌+◌, ◌-◌, ◌*◌, ◌/◌, ◌%◌, ◌^◌, Bool, true, false, ◌==◌, ◌&&◌, if◌then◌else◌, ltb,
  List, [], ◌∷◌, ◌++◌, get_or,
}
use mathlib.Core.List.{reverse}
use model_lib.Base.Words.{u32, u64, sign_extend}

abbrev pub digits_kernel : List ℕ
digits_kernel =
    48 ∷ 49 ∷ 50 ∷ 51 ∷ 52 ∷ 53 ∷ 54 ∷ 55 ∷ 56 ∷ 57 ∷ 97 ∷ 98 ∷ 99 ∷ 100 ∷ 101 ∷ 102 ∷ []

abbrev pub digits_user : List ℕ
digits_user = 48 ∷ 49 ∷ 50 ∷ 51 ∷ 52 ∷ 53 ∷ 54 ∷ 55 ∷ 56 ∷ 57 ∷ 65 ∷ 66 ∷ 67 ∷ 68 ∷ 69 ∷ 70 ∷ []

-- The do-while loop of printint: `buf`, the last digit first.
unfoldable pub digits_from : ℕ → List ℕ → ℕ → ℕ → List ℕ
digits_from zero digits base x = []
digits_from (suc fuel) digits base x =
    let more = digits_from fuel digits base (x / base) in
    get_or digits (x % base) 0 ∷ (if x / base == 0 then [] else more)

abbrev pub is_negative_64 : ℕ → Bool
is_negative_64 x = ltb (2 ^ 63 - 1) x

-- All of `buf`, with the sign. 64 rounds are enough for a base of at least 2.
abbrev pub printint_buf : List ℕ → ℕ → ℕ → Bool → List ℕ
printint_buf digits xx base sign =
    let neg = sign && is_negative_64 xx in
    let x = if neg then u64 (2 ^ 64 - xx) else xx in
    digits_from 64 digits base x ++ (if neg then 45 ∷ [] else [])

unfoldable pub printint : List ℕ → ℕ → ℕ → Bool → List ℕ
printint digits xx base sign = reverse (printint_buf digits xx base sign)

unfoldable pub printptr_from : ℕ → List ℕ → ℕ → List ℕ
printptr_from zero digits x = []
printptr_from (suc n) digits x =
    get_or digits (x / 2 ^ 60) 0 ∷ printptr_from n digits (u64 (x * 16))

unfoldable pub printptr : List ℕ → ℕ → List ℕ
printptr digits x = 48 ∷ 120 ∷ printptr_from 16 digits x

-- What consputc(c) of kernel/console.c sends to the uart, whose register is a byte: BACKSPACE, 0x100, erases the
-- last character. Only `%c` can give it that: the other characters come from bytes.
abbrev pub consputc : ℕ → List ℕ
consputc c = if c == 256 then 8 ∷ 32 ∷ 8 ∷ [] else (c % 256) ∷ []

-- What a conversion prints, how many more characters of the format and how many arguments it takes.
abbrev pub Conversion : Type 0
Conversion = List ℕ × ℕ × ℕ

module _ (digits : List ℕ) (text_at : ℕ → List ℕ) where
  -- The string of `%s`.
  abbrev pub string_at : ℕ → List ℕ
  string_at a = if a == 0 then 40 ∷ 110 ∷ 117 ∷ 108 ∷ 108 ∷ 41 ∷ [] else text_at a

  -- The chain of tests in printk; `arg` is the next argument.
  pub printk_convert : ℕ → ℕ → ℕ → ℕ → Conversion
  printk_convert c0 c1 c2 arg =
      if c0 == 100
      then (printint digits (sign_extend (u32 arg)) 10 true, 0, 1)
      else if c0 == 108 && c1 == 100
      then (printint digits arg 10 true, 1, 1)
      else if c0 == 108 && (c1 == 108 && c2 == 100)
      then (printint digits arg 10 true, 2, 1)
      else if c0 == 117
      then (printint digits (u32 arg) 10 false, 0, 1)
      else if c0 == 108 && c1 == 117
      then (printint digits arg 10 false, 1, 1)
      else if c0 == 108 && (c1 == 108 && c2 == 117)
      then (printint digits arg 10 false, 2, 1)
      else if c0 == 120
      then (printint digits (u32 arg) 16 false, 0, 1)
      else if c0 == 108 && c1 == 120
      then (printint digits arg 16 false, 1, 1)
      else if c0 == 108 && (c1 == 108 && c2 == 120)
      then (printint digits arg 16 false, 2, 1)
      else if c0 == 112
      then (printptr digits arg, 0, 1)
      else if c0 == 99
      then (consputc (u32 arg), 0, 1)
      else if c0 == 115
      then (string_at arg, 0, 1)
      else if c0 == 37
      then (37 ∷ [], 0, 0)
      else (37 ∷ c0 ∷ [], 0, 0)

  -- The character at `i`, where c1 and c2 are looked at only if there is something before them.
  abbrev pub ahead : List ℕ → ℕ → ℕ
  ahead fmt i = get_or fmt i 0

  -- The loop of printk; `skip` characters were taken by the last conversion, `k` arguments so far.
  pub printk_from : (ℕ → ℕ) → ℕ → ℕ → List ℕ → List ℕ
  printk_from args skip k [] = []
  printk_from args (suc skip) k (c ∷ fmt) = printk_from args skip k fmt
  printk_from args zero k (c ∷ fmt) =
      let plain = c ∷ printk_from args 0 k fmt in
      let c0 = ahead fmt 0 in
      let c1 = if c0 == 0 then 0 else ahead fmt 1 in
      let c2 = if c1 == 0 then 0 else ahead fmt 2 in
      let conv = printk_convert c0 c1 c2 (args k) in
      let converted = conv.0 ++ printk_from args (suc (conv.1)) (k + conv.2) fmt in
      if c == 0 then [] else if c == 37 then (if c0 == 0 then [] else converted) else plain

  -- The chain of tests in vprintf.
  pub vprintf_convert : ℕ → ℕ → ℕ → ℕ → Conversion
  vprintf_convert c0 c1 c2 arg =
      if c0 == 100
      then (printint digits (sign_extend (u32 arg)) 10 true, 0, 1)
      else if c0 == 108 && c1 == 100
      then (printint digits arg 10 true, 1, 1)
      else if c0 == 108 && (c1 == 108 && c2 == 100)
      then (printint digits arg 10 true, 2, 1)
      else if c0 == 117
      then (printint digits (u32 arg) 10 false, 0, 1)
      else if c0 == 108 && c1 == 117
      then (printint digits arg 10 false, 1, 1)
      else if c0 == 108 && (c1 == 108 && c2 == 117)
      then (printint digits arg 10 false, 2, 1)
      else if c0 == 120
      then (printint digits (u32 arg) 16 false, 0, 1)
      else if c0 == 108 && c1 == 120
      then (printint digits arg 16 false, 1, 1)
      else if c0 == 108 && (c1 == 108 && c2 == 120)
      then (printint digits arg 16 false, 2, 1)
      else if c0 == 112
      then (printptr digits arg, 0, 1)
      else if c0 == 99
      then ((arg % 256) ∷ [], 0, 1)
      else if c0 == 115
      then (string_at arg, 0, 1)
      else if c0 == 37
      then (37 ∷ [], 0, 0)
      else (37 ∷ c0 ∷ [], 0, 0)

  -- The loop of vprintf; `percent` is its state.
  pub vprintf_from : (ℕ → ℕ) → Bool → ℕ → ℕ → List ℕ → List ℕ
  vprintf_from args percent skip k [] = []
  vprintf_from args percent (suc skip) k (c ∷ fmt) = vprintf_from args percent skip k fmt
  vprintf_from args false zero k (c ∷ fmt) =
      let started = vprintf_from args true 0 k fmt in
      let plain = c ∷ vprintf_from args false 0 k fmt in
      if c == 0 then [] else if c == 37 then started else plain
  vprintf_from args true zero k (c ∷ fmt) =
      let c1 = ahead fmt 0 in
      let c2 = if c1 == 0 then 0 else ahead fmt 1 in
      let conv = vprintf_convert c c1 c2 (args k) in
      let converted = conv.0 ++ vprintf_from args false conv.1 (k + conv.2) fmt in
      if c == 0 then [] else converted

  -- printk(fmt, ...) and vprintf(fd, fmt, ap).
  pub printk : List ℕ → (ℕ → ℕ) → List ℕ
  printk fmt args = printk_from args 0 0 fmt

  pub vprintf : List ℕ → (ℕ → ℕ) → List ℕ
  vprintf fmt args = vprintf_from args false 0 0 fmt
