-- ===== src/Grep/Lines.antt =====
-- The lines that grep of user/grep.c prints, however read cuts its input.
use model_lib.Base.{
  ℕ, zero, suc, ◌<◌, ◌≡◌, ◌≢◌, arith, refl, Bool, ◌==◌, if◌then◌else◌, Option, none, some, List, [],
  ◌∷◌, ◌++◌, length, ap, sym, subst, ◌∙◌,
}
use mathlib.Core.List.{append-nil, append_assoc}
use native.Mathlib.Decide.{ℕ_discrete}
use model_lib.Grep.{newline, next_line, grep_buffer, grep, match}

-- A text is its lines, each ended by a newline, and the beginning of a line.
abbrev pub Split : Type 0
Split = List (List ℕ) × List ℕ

abbrev push : ℕ → Split → Split
push x ([], rest) = ([], x ∷ rest)
push x (line ∷ lines, rest) = ((x ∷ line) ∷ lines, rest)

unfoldable pub split_lines : List ℕ → Split
split_lines [] = ([], [])
split_lines (x ∷ xs) =
    if x == newline then ([] ∷ (split_lines xs).0, (split_lines xs).1) else push x (split_lines xs)

abbrev pub selected : (List ℕ → Bool) → List (List ℕ) → List (List ℕ)
selected p [] = []
selected p (line ∷ lines) = if p line then line ∷ selected p lines else selected p lines

abbrev pub NoNul : List ℕ → Type 0
NoNul [] = Unit {0}
NoNul (x ∷ xs) = (x ≢ 0) × NoNul xs

NoNul-append : (xs ys : List ℕ) → NoNul xs → NoNul ys → NoNul (xs ++ ys)
NoNul-append [] ys h k = k
NoNul-append (x ∷ xs) ys h k = (h.0, NoNul-append xs ys h.1 k)

-- More text after a text: what was left over begins the next line.
abbrev continued : List (List ℕ) → Split → Split
continued lines more = (lines ++ more.0, more.1)

split_lines-other :
    (x : ℕ) (xs : List ℕ) → x ≢ newline → split_lines (x ∷ xs) ≡ push x (split_lines xs)
unfolding split_lines
split_lines-other x xs ne = ground (arith, ne)

split_lines-newline :
    (x : ℕ) (xs : List ℕ)
    → x ≡ newline
    → split_lines (x ∷ xs) ≡ ([] ∷ (split_lines xs).0, (split_lines xs).1)
unfolding split_lines
split_lines-newline x xs e = ground (arith, e)

push-split :
    (x : ℕ) (xs ys : List ℕ) (s : Split)
    → x ≢ newline
    → split_lines (xs ++ ys) ≡ continued s.0 (split_lines (s.1 ++ ys))
    → push x (split_lines (xs ++ ys)) ≡ continued (push x s).0 (split_lines ((push x s).1 ++ ys))
push-split x xs ys ([], rest) ne h = ap (push x) h ∙ sym (split_lines-other x (rest ++ ys) ne)
push-split x xs ys (line ∷ lines, rest) ne h = ap (push x) h

split_lines-append :
    (xs ys : List ℕ)
    → split_lines (xs ++ ys) ≡ continued (split_lines xs).0 (split_lines ((split_lines xs).1 ++ ys))
split_lines-append [] ys = unfold split_lines in refl
split_lines-append (x ∷ xs) ys = elim (ℕ_discrete x newline) [
  | yes e ↦
      split_lines-newline x (xs ++ ys) e
      ∙ ap (λ (s : Split). ([] ∷ s.0, s.1)) (split_lines-append xs ys)
      ∙ sym
          (ap (λ (s : Split). continued s.0 (split_lines (s.1 ++ ys))) (split_lines-newline x xs e))
  | no ne ↦
      split_lines-other x (xs ++ ys) ne
      ∙ push-split x xs ys (split_lines xs) ne (split_lines-append xs ys)
      ∙ sym
          (ap (λ (s : Split). continued s.0 (split_lines (s.1 ++ ys))) (split_lines-other x xs ne))
]

-- What next_line says of the lines of a text without NUL.
NextCase : List ℕ → Option (List ℕ × List ℕ) → Type 0
NextCase text none = split_lines text ≡ ([], text)
NextCase text (some (line, rest)) =
    (split_lines text ≡ (line ∷ (split_lines rest).0, (split_lines rest).1))
    × (length rest < length text)
    × NoNul rest

next_line-NextCase : (text : List ℕ) → NoNul text → NextCase text (next_line text)
unfolding next_line NextCase split_lines
next_line-NextCase [] h = refl
next_line-NextCase (x ∷ xs) h = elim (ℕ_discrete x newline) [
  | yes e ↦
      subst (NextCase (x ∷ xs)) {x = some ([], xs)} (ground (arith, e))
        (split_lines-newline x xs e, omega arith, h.1)
  | no ne ↦
      subst (NextCase (x ∷ xs))
        {x = elim (next_line xs) [ none ↦ none | some (line, rest) ↦ some (x ∷ line, rest) ]}
        (ground (arith, ne, h.0)) (further x xs (next_line xs) ne (next_line-NextCase xs h.1))
]
  where
    further :
        (x : ℕ) (xs : List ℕ) (o : Option (List ℕ × List ℕ))
        → x ≢ newline
        → NextCase xs o
        → NextCase (x ∷ xs) (elim o [ none ↦ none | some (line, rest) ↦ some (x ∷ line, rest) ])
    further x xs none ne k = split_lines-other x xs ne ∙ ap (push x) k
    further x xs (some (line, rest)) ne k =
        (split_lines-other x xs ne ∙ ap (push x) k.0, omega (arith, k.1), k.2)

grep_buffer-split :
    (fuel : ℕ) (pattern text : List ℕ)
    → NoNul text
    → length text < fuel
    → grep_buffer fuel pattern text
      ≡ (selected (match pattern) (split_lines text).0, (split_lines text).1)
unfolding grep_buffer NextCase
grep_buffer-split zero pattern text h l = absurd (omega arith)
grep_buffer-split (suc fuel) pattern text h l =
    by_case (next_line text) (next_line-NextCase text h)
      (λ rest k m. grep_buffer-split fuel pattern rest k m)
  where
    by_case :
        (o : Option (List ℕ × List ℕ))
        → NextCase text o
        → ((rest : List ℕ)
            → NoNul rest
            → length rest < fuel
            → grep_buffer fuel pattern rest
              ≡ (selected (match pattern) (split_lines rest).0, (split_lines rest).1))
        → ◌≡◌ {A = Split}
            (elim o [
              | none ↦ ([], text)
              | some (line, rest) ↦
                  let (out, left) = grep_buffer fuel pattern rest in
                  (if match pattern line then line ∷ out else out, left)
            ])
            (selected (match pattern) (split_lines text).0, (split_lines text).1)
    by_case none k ih = sym (ap (λ (s : Split). (selected (match pattern) s.0, s.1)) k)
    by_case (some (line, rest)) k ih =
        ap (λ (s : Split). (if match pattern line then line ∷ s.0 else s.0, s.1))
          (ih rest k.2 (omega (arith, k.1)))
        ∙ sym (ap (λ (s : Split). (selected (match pattern) s.0, s.1)) k.0)

abbrev pub joined : List (List ℕ) → List ℕ
joined [] = []
joined (chunk ∷ chunks) = chunk ++ joined chunks

-- What read gives until the end of the input: something, and no NUL.
abbrev pub AreReads : List (List ℕ) → Type 0
AreReads [] = Unit {0}
AreReads (chunk ∷ chunks) = (chunk ≢ []) × NoNul chunk × AreReads chunks

selected-append :
    (p : List ℕ → Bool) (xs ys : List (List ℕ))
    → selected p (xs ++ ys) ≡ selected p xs ++ selected p ys
selected-append p [] ys = refl
selected-append p (x ∷ xs) ys = ground (arith, selected-append p xs ys)

NoNul-left : (text : List ℕ) → NoNul text → NoNul (split_lines text).1
unfolding split_lines
NoNul-left [] h = tt
NoNul-left (x ∷ xs) h = elim (ℕ_discrete x newline) [
  | yes e ↦ subst (λ (s : Split). NoNul s.1) (sym (split_lines-newline x xs e)) (NoNul-left xs h.1)
  | no ne ↦
      subst (λ (s : Split). NoNul s.1) (sym (split_lines-other x xs ne))
        (pushed (split_lines xs) (NoNul-left xs h.1))
]
  where
    pushed : (s : Split) → NoNul s.1 → NoNul (push x s).1
    pushed ([], rest) k = (h.0, k)
    pushed (line ∷ lines, rest) k = k

-- What is left over is the beginning of a line.
left-whole : (text : List ℕ) → split_lines (split_lines text).1 ≡ ([], (split_lines text).1)
left-whole [] = unfold split_lines in refl
left-whole (x ∷ xs) = elim (ℕ_discrete x newline) [
  | yes e ↦
      subst (λ (s : Split). split_lines s.1 ≡ ([], s.1)) (sym (split_lines-newline x xs e))
        (left-whole xs)
  | no ne ↦
      subst (λ (s : Split). split_lines s.1 ≡ ([], s.1)) (sym (split_lines-other x xs ne))
        (pushed ne (split_lines xs) (left-whole xs))
]
  where
    pushed :
        x ≢ newline
        → (s : Split) → split_lines s.1 ≡ ([], s.1)
        → split_lines (push x s).1 ≡ ([], (push x s).1)
    pushed ne ([], rest) k = split_lines-other x rest ne ∙ ap (push x) k
    pushed ne (line ∷ lines, rest) k = k

grep-rest :
    (pattern buf : List ℕ) (chunks : List (List ℕ))
    → NoNul buf
    → split_lines buf ≡ ([], buf)
    → AreReads chunks
    → grep pattern buf chunks ≡ selected (match pattern) (split_lines (buf ++ joined chunks)).0
unfolding grep
grep-rest pattern buf [] k whole h = sym (
    ap (λ b. selected (match pattern) (split_lines b).0) (append-nil buf)
    ∙ ap (λ (s : Split). selected (match pattern) s.0) whole)
grep-rest pattern buf ([] ∷ chunks) k whole h = absurd (h.0 refl)
grep-rest pattern buf ((x ∷ xs) ∷ chunks) k whole h =
    let text = buf ++ x ∷ xs in
    let clean = NoNul-append buf (x ∷ xs) k h.1 in
    let left = (split_lines text).1 in
    ap (λ (s : Split). s.0 ++ grep pattern s.1 chunks)
      (grep_buffer-split (suc (length text)) pattern text clean (omega arith))
    ∙ ap (λ l. selected (match pattern) (split_lines text).0 ++ l)
        (grep-rest pattern left chunks (NoNul-left text clean) (left-whole text) h.2)
    ∙ sym (
        selected-append (match pattern) (split_lines text).0
          (split_lines (left ++ joined chunks)).0)
    ∙ sym
        (ap (λ (s : Split). selected (match pattern) s.0) (split_lines-append text (joined chunks)))
    ∙ ap (λ b. selected (match pattern) (split_lines b).0)
        (append_assoc buf (x ∷ xs) (joined chunks))

-- grep prints exactly the lines of its input that are ended by a newline and match, in their order,
-- however read cuts the input: if the input has no NUL and each read before the end gives something,
-- as it does while no line fills the buffer.
pub grep-selects :
    (pattern : List ℕ) (chunks : List (List ℕ))
    → AreReads chunks
    → grep pattern [] chunks ≡ selected (match pattern) (split_lines (joined chunks)).0
grep-selects pattern chunks h = grep-rest pattern [] chunks tt (unfold split_lines in refl) h
