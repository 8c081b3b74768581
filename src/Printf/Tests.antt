-- ===== src/Printf/Tests.antt =====
-- Numbers and a format.
use model_lib.Base.{
  ℕ, ◌-◌, ◌^◌, ◌≤◌, ◌≡◌, inl, arith, refl, true, false, List, [], ◌∷◌, ◌++◌, length, if◌then◌else◌,
  ◌==◌,
}
use model_lib.Base.Words.{u32}
use model_lib.Strings.{atoi}
use model_lib.Printf.{
  digits_kernel, digits_user, digits_from, printint_buf, printint, printk, printk_from,
  printk_convert, vprintf,
}
use model_lib.Printf.Digits.{printint_buf_bounds, atoi-printint}
use model_lib.Printf.Agree.{printk-vprintf}

printint_buf_bounds_example : length (printint_buf digits_kernel (2 ^ 63) 10 true) ≤ 20
printint_buf_bounds_example =
    printint_buf_bounds digits_kernel (2 ^ 63) 10 true (inl refl) (omega arith)

atoi-printint_example : atoi (printint digits_user 1234 10 false ++ 10 ∷ []) ≡ u32 1234
atoi-printint_example = atoi-printint 1234 (10 ∷ []) (omega arith) (inl (omega arith))

-- "%d %lx"
abbrev format : List ℕ
format = 37 ∷ 100 ∷ 32 ∷ 37 ∷ 108 ∷ 120 ∷ []

abbrev values : ℕ → ℕ
values k = if k == 0 then 2 ^ 64 - 5 else 255

no_text : ℕ → List ℕ
no_text a = []

printk-vprintf_example :
    printk digits_user no_text format values ≡ vprintf digits_user no_text format values
printk-vprintf_example = printk-vprintf digits_user no_text values format (λ j e. omega arith)

-- "-5 ff"
printed : printk digits_kernel no_text format values ≡ 45 ∷ 53 ∷ 32 ∷ 102 ∷ 102 ∷ []
unfolding printk printk_from printk_convert printint digits_from
printed = refl

-- "%c" with BACKSPACE is where they differ.
erased : printk digits_kernel no_text (37 ∷ 99 ∷ []) (λ k. 256) ≡ 8 ∷ 32 ∷ 8 ∷ []
unfolding printk printk_from printk_convert
erased = refl
