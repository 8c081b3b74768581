-- ===== src/Grep/Tests.antt =====
-- grep on small texts.
use model_lib.Base.{ℕ, ◌≡◌, ◌↔◌, arith, refl, true, List, [], ◌∷◌}
use model_lib.Grep.{match, match_from, matchhere, grep}
use model_lib.Grep.Meaning.{Matches, match_iff}
use model_lib.Grep.Lines.{selected, split_lines, joined, grep-selects}

-- `a.*c$` in "xabbc"
match_iff_example :
    (match (97 ∷ 46 ∷ 42 ∷ 99 ∷ 36 ∷ []) (120 ∷ 97 ∷ 98 ∷ 98 ∷ 99 ∷ []) ≡ true)
    ↔ Matches (97 ∷ 46 ∷ 42 ∷ 99 ∷ 36 ∷ []) (120 ∷ 97 ∷ 98 ∷ 98 ∷ 99 ∷ [])
match_iff_example = match_iff (97 ∷ 46 ∷ 42 ∷ 99 ∷ 36 ∷ []) (120 ∷ 97 ∷ 98 ∷ 98 ∷ 99 ∷ [])

matches : match (97 ∷ 46 ∷ 42 ∷ 99 ∷ 36 ∷ []) (120 ∷ 97 ∷ 98 ∷ 98 ∷ 99 ∷ []) ≡ true
unfolding match matchhere match_from
matches = refl

-- "ab\nb" and "c\nd", in two reads
abbrev reads : List (List ℕ)
reads = (97 ∷ 98 ∷ 10 ∷ 98 ∷ []) ∷ (99 ∷ 10 ∷ 100 ∷ []) ∷ []

grep-selects_example :
    grep (99 ∷ []) [] reads ≡ selected (match (99 ∷ [])) (split_lines (joined reads)).0
grep-selects_example = grep-selects (99 ∷ []) reads (ground arith)
