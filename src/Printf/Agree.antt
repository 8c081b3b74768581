-- ===== src/Printf/Agree.antt =====
-- printk of kernel/printk.c and vprintf of user/printf.c read a format in the same way.
use model_lib.Base.{
  ℕ, zero, suc, ◌+◌, ◌≡◌, arith, refl, Bool, true, false, ◌==◌, if◌then◌else◌, List, [], ◌∷◌, ◌++◌,
  get_or, ap, ◌∙◌, ◌≢◌,
}
use native.Mathlib.Decide.{ℕ_discrete}
use model_lib.Base.Words.{u32}
use model_lib.Printf.{
  Conversion, printk_convert, printk_from, vprintf_convert, vprintf_from, printk, vprintf,
}

-- There is no `c` in a format.
abbrev pub NoChar : List ℕ → Type 0
NoChar [] = Unit
NoChar (c ∷ fmt) = (c ≢ 99) × NoChar fmt

module _ (digits : List ℕ) (text_at : ℕ → List ℕ) (args : ℕ → ℕ) where
  convert_same :
      (c0 c1 c2 arg : ℕ)
      → (u32 arg ≡ 256 → c0 ≢ 99)
      → printk_convert digits text_at c0 c1 c2 arg ≡ vprintf_convert digits text_at c0 c1 c2 arg
  unfolding printk_convert vprintf_convert
  convert_same c0 c1 c2 arg h = elim (ℕ_discrete c0 99) [
    | yes e ↦ ground (arith, e, h)
    | no ne ↦ ground (arith, ne)
  ]

  -- The two ways to branch on a character, on a `%` and on the character after it.
  joined :
      (ended percent last : Bool) (c : ℕ) {plain plain' conv conv' : List ℕ}
      → plain ≡ plain'
      → (last ≡ false → conv ≡ conv')
      → (if ended then [] else if percent then (if last then [] else conv) else c ∷ plain)
        ≡ (if ended then [] else if percent then (if last then [] else conv') else c ∷ plain')
  joined true percent last c e h = refl
  joined false true true c e h = refl
  joined false true false c e h = h refl
  joined false false last c e h = ap (λ l. c ∷ l) e

  from_same :
      (skip k : ℕ) (fmt : List ℕ)
      → ((j : ℕ) → u32 (args j) ≡ 256 → NoChar fmt)
      → printk_from digits text_at args skip k fmt
        ≡ vprintf_from digits text_at args false skip k fmt
  unfolding printk_from vprintf_from
  from_same skip k [] h = refl
  from_same (suc skip) k (c ∷ fmt) h = from_same skip k fmt (λ j e. (h j e).1)
  from_same zero k (c ∷ []) h = ground arith
  from_same zero k (c ∷ d ∷ fmt) h =
      joined (c == 0) (c == 37) (d == 0) c (from_same 0 k (d ∷ fmt) (λ j e. (h j e).1)) (λ more.
        let c1 : ℕ = get_or fmt 0 0 in
        let c2 : ℕ = if c1 == 0 then 0 else get_or fmt 1 0 in
        let conv : Conversion = vprintf_convert digits text_at d c1 c2 (args k) in
        let same : printk_convert digits text_at d (if d == 0 then 0 else c1)
              (if (if d == 0 then 0 else c1) == 0 then 0 else get_or fmt 1 0) (args k)
            ≡ conv =
          ap
            (λ (last : Bool).
              printk_convert digits text_at d (if last then 0 else c1)
                (if (if last then 0 else c1) == 0 then 0 else get_or fmt 1 0) (args k))
            more
          ∙ convert_same d c1 c2 (args k) (λ e. (h k e).1.0) in
        ap (λ (r : Conversion). r.0 ++ printk_from digits text_at args r.1 (k + r.2) fmt) same
        ∙ ap (λ l. conv.0 ++ l) (from_same conv.1 (k + conv.2) fmt (λ j e. (h j e).1.1)))

  -- For every format, every arguments and the same digits, printk and vprintf print the same, if no
  -- argument is 0x100, which printk's %c takes for BACKSPACE, or if the format has no `c`.
  pub printk-vprintf :
      (fmt : List ℕ)
      → ((j : ℕ) → u32 (args j) ≡ 256 → NoChar fmt)
      → printk digits text_at fmt args ≡ vprintf digits text_at fmt args
  unfolding printk vprintf
  printk-vprintf fmt h = from_same 0 0 fmt h
