-- ===== src/Grep/Meaning.antt =====
-- What a pattern of user/grep.c means, and that the matcher decides it.
use model_lib.Base.{
  ℕ, ◌≡◌, ◌≢◌, ◌⊎◌, inl, inr, ◌↔◌, arith, refl, Bool, true, Bool-cases, List, [], ◌∷◌, ◌++◌, ap,
  sym, subst, ◌∙◌,
}
use native.Mathlib.Decide.{ℕ_discrete}
use model_lib.Grep.{star, dollar, dot, caret, matchone, matchstar, matchhere, match_from, match}

-- The character `c` of a pattern stands for `x`.
abbrev pub StandsFor : ℕ → ℕ → Type 0
StandsFor c x = (c ≡ dot) ⊎ (c ≡ x)

-- A text that `c` `*` stands for.
pub data Repeats (c : ℕ) : List ℕ → Type 0 where
  no_more : Repeats c []
  once_more : {x : ℕ} {xs : List ℕ} → StandsFor c x → Repeats c xs → Repeats c (x ∷ xs)

-- What may follow a character that stands for itself: not a star, and a `$` has to have a successor.
abbrev Plain : ℕ → List ℕ → Type 0
Plain c [] = c ≢ dollar
Plain c (d ∷ re) = d ≢ star

-- The pattern matches a beginning of the text.
pub data Here : List ℕ → List ℕ → Type 0 where
  nothing : {text : List ℕ} → Here [] text
  repeated :
      {c : ℕ} {re xs ys text : List ℕ}
      → Repeats c xs
      → Here re ys
      → text ≡ xs ++ ys
      → Here (c ∷ star ∷ re) text
  at_end : Here (dollar ∷ []) []
  one :
      {c x : ℕ} {re xs : List ℕ} → Plain c re → StandsFor c x → Here re xs → Here (c ∷ re) (x ∷ xs)

-- The pattern matches somewhere in the text, or at its beginning if it starts with `^`.
pub data Matches : List ℕ → List ℕ → Type 0 where
  anchored : {re text : List ℕ} → Here re text → Matches (caret ∷ re) text
  somewhere :
      {re text : List ℕ} (before after : List ℕ)
      → ((r : List ℕ) → re ≢ caret ∷ r)
      → text ≡ before ++ after
      → Here re after
      → Matches re text

matchstar_sound :
    (c : ℕ) (here : List ℕ → Bool) (text : List ℕ)
    → matchstar c here text ≡ true
    → (xs : List ℕ) × (ys : List ℕ) × Repeats c xs × (here ys ≡ true) × (text ≡ xs ++ ys)
unfolding matchstar
matchstar_sound c here [] h = ([], [], no_more, h, refl)
matchstar_sound c here (x ∷ xs) h = elim (Bool-cases (here (x ∷ xs))) [
  | inl e ↦ ([], x ∷ xs, no_more, e, refl)
  | inr e ↦
      let (some_xs, rest, r, hb, same) = matchstar_sound c here xs (ground (arith, h, e)) in
      (x ∷ some_xs, rest, once_more (ground (arith, h, e)) r, hb, ap (λ l. x ∷ l) same)
]

matchstar_complete :
    (c : ℕ) (here : List ℕ → Bool) (xs ys : List ℕ)
    → Repeats c xs
    → here ys ≡ true
    → matchstar c here (xs ++ ys) ≡ true
unfolding matchstar
matchstar_complete c here [] [] r h = h
matchstar_complete c here [] (y ∷ ys) r h = ground (arith, h)
matchstar_complete c here (x ∷ xs) ys (once_more s r) h =
    ground (arith, s, matchstar_complete c here xs ys r h)

matchone_sound :
    (c : ℕ) (rest : List ℕ → Bool) (text : List ℕ)
    → matchone c rest text ≡ true
    → (x : ℕ) × (xs : List ℕ) × StandsFor c x × (rest xs ≡ true) × (text ≡ x ∷ xs)
matchone_sound c rest [] h = absurd (ground (arith, h))
matchone_sound c rest (x ∷ xs) h = (
  x,
  xs,
  elim (ℕ_discrete c dot) [ yes e ↦ inl e | no ne ↦ inr (ground (arith, h, ne)) ],
  ground (arith, h),
  refl,
)

Here-one :
    (c : ℕ) (re : List ℕ) (text : List ℕ)
    → Plain c re
    → ((xs : List ℕ) → matchhere re xs ≡ true → Here re xs)
    → matchone c (matchhere re) text ≡ true
    → Here (c ∷ re) text
Here-one c re text plain later h =
    let (x, xs, s, m, same) = matchone_sound c (matchhere re) text h in
    subst (Here (c ∷ re)) (sym same) (one plain s (later xs m))

matchhere_sound : (re text : List ℕ) → matchhere re text ≡ true → Here re text
unfolding matchhere
matchhere_sound [] text h = nothing
matchhere_sound (c ∷ []) text h = elim (ℕ_discrete c dollar) [
  | yes e ↦ ends c text e h
  | no ne ↦ Here-one c [] text ne (λ xs m. nothing) (ground (arith, h, ne))
]
  where
    ends :
        (c : ℕ) (text : List ℕ) → c ≡ dollar → matchhere (c ∷ []) text ≡ true → Here (c ∷ []) text
    ends c [] e h = subst (λ d. Here (d ∷ []) []) (sym e) at_end
    ends c (x ∷ xs) e h = absurd (ground (arith, h, e))
matchhere_sound (c ∷ d ∷ re) text h = elim (ℕ_discrete d star) [
  | yes e ↦
      let (xs, ys, r, m, same) = matchstar_sound c (matchhere re) text (ground (arith, h, e)) in
      subst (λ b. Here (c ∷ b ∷ re) text) (sym e) (repeated r (matchhere_sound re ys m) same)
  | no ne ↦ Here-one c (d ∷ re) text ne (matchhere_sound (d ∷ re)) (ground (arith, h, ne))
]

matchhere_complete : {re text : List ℕ} → Here re text → matchhere re text ≡ true
unfolding matchhere
matchhere_complete nothing = refl
matchhere_complete (repeated {c} {re} {xs} {ys} r h same) =
    ap (matchstar c (matchhere re)) same
    ∙ matchstar_complete c (matchhere re) xs ys r (matchhere_complete h)
matchhere_complete at_end = refl
matchhere_complete (one {re = []} plain s h) = ground (arith, plain, s)
matchhere_complete (one {re = d ∷ re} plain s h) = ground (arith, plain, s, matchhere_complete h)

match_from_sound :
    (re text : List ℕ)
    → match_from re text ≡ true
    → (before : List ℕ) × (after : List ℕ) × (text ≡ before ++ after) × Here re after
unfolding match_from
match_from_sound re [] h = ([], [], refl, matchhere_sound re [] h)
match_from_sound re (x ∷ xs) h = elim (Bool-cases (matchhere re (x ∷ xs))) [
  | inl e ↦ ([], x ∷ xs, refl, matchhere_sound re (x ∷ xs) e)
  | inr e ↦
      let (before, after, same, here) = match_from_sound re xs (ground (arith, h, e)) in
      (x ∷ before, after, ap (λ l. x ∷ l) same, here)
]

match_from_complete :
    (re before after : List ℕ) → Here re after → match_from re (before ++ after) ≡ true
unfolding match_from
match_from_complete re [] [] h = matchhere_complete h
match_from_complete re [] (x ∷ xs) h = ground (arith, matchhere_complete h)
match_from_complete re (x ∷ before) after h = ground (arith, match_from_complete re before after h)

match_sound : (re text : List ℕ) → match re text ≡ true → Matches re text
unfolding match
match_sound [] text h =
    let (before, after, same, here) = match_from_sound [] text h in
    somewhere before after (λ r e. absurd (ground (arith, e))) same here
match_sound (c ∷ re) text h = elim (ℕ_discrete c caret) [
  | yes e ↦
      subst (λ d. Matches (d ∷ re) text) (sym e)
        (anchored (matchhere_sound re text (ground (arith, h, e))))
  | no ne ↦
      let (before, after, same, here) = match_from_sound (c ∷ re) text (ground (arith, h, ne)) in
      somewhere before after (λ r e. absurd (ground (arith, e, ne))) same here
]

match_complete : {re text : List ℕ} → Matches re text → match re text ≡ true
unfolding match
match_complete (anchored h) = matchhere_complete h
match_complete (somewhere {re = []} before after free same h) =
    ap (match_from []) same ∙ match_from_complete [] before after h
match_complete (somewhere {re = c ∷ re} before after free same h) = elim (ℕ_discrete c caret) [
  | yes e ↦ absurd (free re (ap (λ d. d ∷ re) e))
  | no ne ↦
      ground (arith, ne, ap (match_from (c ∷ re)) same, match_from_complete (c ∷ re) before after h)
]

-- The matcher returns true exactly if the pattern matches the text in the sense of Matches: `c*` for
-- any run of characters that `c` stands for, `.` for any character, `$` at the end of a pattern for
-- the end of the text, any other character for itself; at the beginning of the text if the pattern
-- starts with `^`, else anywhere.
pub match_iff : (re text : List ℕ) → (match re text ≡ true) ↔ Matches re text
match_iff re text = (match_sound re text, match_complete)
