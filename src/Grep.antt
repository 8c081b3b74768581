-- ===== src/Grep.antt =====
-- user/grep.c: the matcher of regular expressions, and the lines that grep prints. A C string is the
-- list of its characters before the NUL.
pub mod Meaning
pub mod Lines
mod Tests
use model_lib.Base.{
  ℕ, zero, suc, Bool, true, false, ◌==◌, ◌||◌, ◌&&◌, if◌then◌else◌, Option, none, some, List, [],
  ◌∷◌, ◌++◌, length,
}

abbrev pub star : ℕ
star = 42

abbrev pub dollar : ℕ
dollar = 36

abbrev pub dot : ℕ
dot = 46

abbrev pub caret : ℕ
caret = 94

abbrev pub newline : ℕ
newline = 10

-- `*text == '\0'`
abbrev pub is_end : List ℕ → Bool
is_end [] = true
is_end (x ∷ xs) = false

-- `*text != '\0' && (re[0] == '.' || re[0] == *text)`, and then the rest of the pattern.
abbrev pub matchone : ℕ → (List ℕ → Bool) → List ℕ → Bool
matchone c rest [] = false
matchone c rest (x ∷ xs) = if c == dot || c == x then rest xs else false

-- matchstar(c, re, text); `here` is matchhere of `re`.
unfoldable pub matchstar : ℕ → (List ℕ → Bool) → List ℕ → Bool
matchstar c here [] = here []
matchstar c here (x ∷ xs) = here (x ∷ xs) || ((x == c || c == dot) && matchstar c here xs)

pub matchhere : List ℕ → List ℕ → Bool
unfolding matchstar
matchhere [] text = true
matchhere (c ∷ []) text = if c == dollar then is_end text else matchone c (matchhere []) text
matchhere (c ∷ d ∷ re) text =
    if d == star then matchstar c (matchhere re) text else matchone c (matchhere (d ∷ re)) text

-- The loop of match.
unfoldable pub match_from : List ℕ → List ℕ → Bool
match_from re [] = matchhere re []
match_from re (x ∷ xs) = matchhere re (x ∷ xs) || match_from re xs

pub match : List ℕ → List ℕ → Bool
unfolding match_from
match [] text = match_from [] text
match (c ∷ re) text = if c == caret then matchhere re text else match_from (c ∷ re) text

-- `strchr(p, '\n')`: the line before the newline, and what comes after it.
unfoldable pub next_line : List ℕ → Option (List ℕ × List ℕ)
next_line [] = none
next_line (x ∷ xs) =
    if x == newline
    then some ([], xs)
    else if x == 0
    then none
    else elim (next_line xs) [ none ↦ none | some (line, rest) ↦ some (x ∷ line, rest) ]

-- The inner loop of grep: the lines that are written, and what stays in the buffer. `fuel` is more
-- than the number of newlines.
pub grep_buffer : ℕ → List ℕ → List ℕ → List (List ℕ) × List ℕ
unfolding next_line
grep_buffer zero pattern buf = ([], buf)
grep_buffer (suc fuel) pattern buf = elim (next_line buf) [
  | none ↦ ([], buf)
  | some (line, rest) ↦
      let (out, left) = grep_buffer fuel pattern rest in
      (if match pattern line then line ∷ out else out, left)
]

-- grep(pattern, fd): each element of the list is what one call of read gives, until it gives nothing.
pub grep : List ℕ → List ℕ → List (List ℕ) → List (List ℕ)
grep pattern buf [] = []
grep pattern buf ([] ∷ chunks) = []
grep pattern buf ((x ∷ xs) ∷ chunks) =
    let text = buf ++ x ∷ xs in
    let (out, left) = grep_buffer (suc (length text)) pattern text in
    out ++ grep pattern left chunks
