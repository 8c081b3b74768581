-- ===== src/Printf/Digits.antt =====
-- The numbers that printint writes: they fit its buffer, and atoi of user/ulib.c reads them back.
use model_lib.Base.{
  ℕ, zero, suc, ◌+◌, ◌-◌, ◌*◌, ◌/◌, ◌%◌, ◌^◌, ◌≤◌, ◌<◌, ◌≡◌, ◌≢◌, ◌⊎◌, inl, inr, arith, refl, Bool,
  true, false, Bool-cases, ◌==◌, ◌&&◌, if◌then◌else◌, List, [], ◌∷◌, ◌++◌, length, length-append,
  get_or, subst, sym, ap, ◌∙◌,
}
use mathlib.Core.List.{reverse, reverse-cons, append_assoc, append-nil}
use native.Mathlib.Decide.{ℕ_discrete}
use model_lib.Base.Words.{u32, u64}
use model_lib.Strings.{atoi_from, atoi}
use model_lib.Printf.{digits_from, is_negative_64, printint_buf, printint, digits_user}

abbrev pow10 : ℕ → ℕ
pow10 zero = 1
pow10 (suc k) = 10 * pow10 k

-- A number below a power of ten has that many digits at most.
digits_from-length :
    (fuel k base x : ℕ) (digits : List ℕ)
    → (base ≡ 10) ⊎ (base ≡ 16)
    → x < pow10 (suc k)
    → length (digits_from fuel digits base x) ≤ suc k
unfolding digits_from
digits_from-length zero k base x digits b h = omega arith
digits_from-length (suc fuel) zero base x digits b h = ground (arith, b, h)
digits_from-length (suc fuel) (suc k) base x digits b h = elim (ℕ_discrete (x / base) 0) [
  | yes e ↦ ground (arith, e)
  | no ne ↦ ground (arith, ne, digits_from-length fuel k base (x / base) digits b (smaller base b))
]
  where
    smaller : (base : ℕ) → (base ≡ 10) ⊎ (base ≡ 16) → x / base < pow10 (suc k)
    smaller base (inl e) = subst (λ b. x / b < pow10 (suc k)) (sym e) (omega (arith, h))
    smaller base (inr e) = subst (λ b. x / b < pow10 (suc k)) (sym e) (omega (arith, h))

-- The buffer, once the sign is known.
abbrev filled : List ℕ → ℕ → ℕ → Bool → List ℕ
filled digits xx base neg =
    digits_from 64 digits base (if neg then u64 (2 ^ 64 - xx) else xx)
    ++ (if neg then 45 ∷ [] else [])

negative_large : (sign : Bool) (xx : ℕ) → (sign && is_negative_64 xx) ≡ true → 2 ^ 63 - 1 < xx
negative_large true xx e = ground (arith, e)
negative_large false xx e = absurd (ground (arith, e))

-- printint never writes past the 20 characters of its buffer, for the two bases that it is called
-- with and every 64-bit value.
pub printint_buf_bounds :
    (digits : List ℕ) (xx base : ℕ) (sign : Bool)
    → (base ≡ 10) ⊎ (base ≡ 16)
    → xx < 2 ^ 64
    → length (printint_buf digits xx base sign) ≤ 20
printint_buf_bounds digits xx base sign b h = elim (Bool-cases (sign && is_negative_64 xx)) [
  | inl e ↦
      subst (λ neg. length (filled digits xx base neg) ≤ 20) (sym e)
        (omega (
          arith,
          length-append (digits_from 64 digits base (u64 (2 ^ 64 - xx))) (45 ∷ []),
          digits_from-length 64 18 base (u64 (2 ^ 64 - xx)) digits b
              (omega (arith, negative_large sign xx e, h)),
        ))
  | inr e ↦
      subst (λ neg. length (filled digits xx base neg) ≤ 20) (sym e)
        (omega (
          arith,
          length-append (digits_from 64 digits base xx) [],
          digits_from-length 64 19 base xx digits b (omega (arith, h)),
        ))
]

digit_char : (d : ℕ) → d < 10 → get_or digits_user d 0 ≡ 48 + d
digit_char zero h = refl
digit_char (suc zero) h = refl
digit_char (suc (suc zero)) h = refl
digit_char (suc (suc (suc zero))) h = refl
digit_char (suc (suc (suc (suc zero)))) h = refl
digit_char (suc (suc (suc (suc (suc zero))))) h = refl
digit_char (suc (suc (suc (suc (suc (suc zero)))))) h = refl
digit_char (suc (suc (suc (suc (suc (suc (suc zero))))))) h = refl
digit_char (suc (suc (suc (suc (suc (suc (suc (suc zero)))))))) h = refl
digit_char (suc (suc (suc (suc (suc (suc (suc (suc (suc zero))))))))) h = refl
digit_char (suc (suc (suc (suc (suc (suc (suc (suc (suc (suc d)))))))))) h = absurd (omega arith)

-- atoi reads a digit.
atoi_from-digit :
    (n d : ℕ) (rest : List ℕ)
    → d < 10
    → atoi_from n ((48 + d) ∷ rest) ≡ atoi_from (u32 (n * 10 + d)) rest
unfolding atoi_from
atoi_from-digit n d rest h = ground (
  arith,
  ap (λ (m : ℕ). atoi_from (u32 m) rest)
      (let e : n * 10 + (48 + d) - 48 ≡ n * 10 + d = omega arith in e),
)

reverse-digit : (c : ℕ) (ds rest : List ℕ) → reverse (c ∷ ds) ++ rest ≡ reverse ds ++ c ∷ rest
reverse-digit c ds rest =
    ap (λ l. l ++ rest) (reverse-cons c ds) ∙ append_assoc (reverse ds) (c ∷ []) rest

positive : (fuel y : ℕ) → y ≢ 0 → y < pow10 fuel → 0 < fuel
positive zero y ne h = absurd (omega (arith, ne, h))
positive (suc fuel) y ne h = omega arith

atoi-digits :
    (fuel x : ℕ) (rest : List ℕ)
    → x < pow10 fuel
    → 0 < fuel
    → atoi_from 0 (reverse (digits_from fuel digits_user 10 x) ++ rest) ≡ atoi_from (u32 x) rest
unfolding digits_from
atoi-digits zero x rest h l = absurd (omega arith)
atoi-digits (suc fuel) x rest h l =
    ap (λ c. atoi_from 0 (reverse (c ∷ more) ++ rest)) (digit_char (x % 10) (omega arith))
    ∙ ap (atoi_from 0) (reverse-digit (48 + x % 10) more rest)
    ∙ before (λ ne.
      atoi-digits fuel (x / 10) ((48 + x % 10) ∷ rest) (omega (arith, h))
        (positive fuel (x / 10) ne (omega (arith, h))))
    ∙ atoi_from-digit (u32 (x / 10)) (x % 10) rest (omega arith)
    ∙ ap (λ n. atoi_from n rest)
        (let e : u32 (u32 (x / 10) * 10 + x % 10) ≡ u32 x = omega arith in e)
  where
    more : List ℕ
    more = if x / 10 == 0 then [] else digits_from fuel digits_user 10 (x / 10)

    before :
        (x / 10 ≢ 0
          → atoi_from 0 (reverse (digits_from fuel digits_user 10 (x / 10)) ++ (48 + x % 10) ∷ rest)
            ≡ atoi_from (u32 (x / 10)) ((48 + x % 10) ∷ rest))
        → atoi_from 0 (reverse more ++ (48 + x % 10) ∷ rest)
          ≡ atoi_from (u32 (x / 10)) ((48 + x % 10) ∷ rest)
    before ih = elim (ℕ_discrete (x / 10) 0) [
      | yes e ↦
          ap (λ l. atoi_from 0 (reverse l ++ (48 + x % 10) ∷ rest))
            (let none_left : more ≡ [] = ground (arith, e) in none_left)
          ∙ ap (λ (n : ℕ). atoi_from n ((48 + x % 10) ∷ rest))
              (let zero_left : 0 ≡ u32 (x / 10) = omega (arith, e) in zero_left)
      | no ne ↦
          ap (λ l. atoi_from 0 (reverse l ++ (48 + x % 10) ∷ rest))
            (let some_left : more ≡ digits_from fuel digits_user 10 (x / 10) = ground (arith, ne) in
              some_left)
          ∙ ih ne
    ]

-- The text ends, or goes on with something else than a digit.
abbrev pub EndsNumber : List ℕ → Type 0
EndsNumber [] = Unit {0}
EndsNumber (c ∷ s) = (c < 48) ⊎ (57 < c)

atoi_from-EndsNumber : (n : ℕ) (rest : List ℕ) → EndsNumber rest → atoi_from n rest ≡ n
unfolding atoi_from
atoi_from-EndsNumber n [] h = refl
atoi_from-EndsNumber n (c ∷ s) h = ground (arith, h)

-- What user/printf.c prints for a number without a sign, in base 10, atoi reads back, modulo 2 ^ 32,
-- whatever follows that is not a digit.
pub atoi-printint :
    (xx : ℕ) (rest : List ℕ)
    → xx < 2 ^ 64
    → EndsNumber rest
    → atoi (printint digits_user xx 10 false ++ rest) ≡ u32 xx
unfolding printint atoi
atoi-printint xx rest h stops =
    ap (λ l. atoi_from 0 (reverse l ++ rest)) (append-nil (digits_from 64 digits_user 10 xx))
    ∙ atoi-digits 64 xx rest (omega (arith, h)) (omega arith)
    ∙ atoi_from-EndsNumber (u32 xx) rest stops
