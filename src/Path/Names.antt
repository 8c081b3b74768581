-- ===== src/Path/Names.antt =====
-- kernel/fs.c: the names of a path.
use model_lib.Base.{
  ℕ, zero, suc, ◌≤◌, ◌<◌, ◌≡◌, ◌≢◌, ◌∙◌, ap, sym, refl, arith, ◌==◌, if◌then◌else◌, none, some,
  List, [], ◌∷◌, take, length,
}
use native.Mathlib.Decide.{ℕ_discrete}
use model_lib.Path.{
  dirsiz, slash, skip_slashes, element, after_element, first_element, skipelem, names,
}

-- A character more at the front of the first piece.
abbrev pub extend : ℕ → List (List ℕ) → List (List ℕ)
extend c [] = (c ∷ []) ∷ []
extend c (p ∷ ps) = (c ∷ p) ∷ ps

-- The pieces of a path between its slashes.
pub pieces : List ℕ → List (List ℕ)
pieces [] = [] ∷ []
pieces (c ∷ path) = let rest = pieces path in if c == slash then [] ∷ rest else extend c rest

-- The pieces that are not empty, cut to DIRSIZ characters.
pub cut : List (List ℕ) → List (List ℕ)
cut [] = []
cut ([] ∷ ps) = cut ps
cut ((c ∷ p) ∷ ps) = take dirsiz (c ∷ p) ∷ cut ps

cut-skip_slashes : (path : List ℕ) → cut (pieces (skip_slashes path)) ≡ cut (pieces path)
unfolding cut pieces skip_slashes
cut-skip_slashes [] = refl
cut-skip_slashes (c ∷ path) = elim (ℕ_discrete c slash) [
  | yes e ↦ ground (arith, e, cut-skip_slashes path)
  | no ne ↦ ground (arith, ne)
]

-- The pieces after the first, of what the loop over the first leaves.
abbrev later : List ℕ → List (List ℕ)
later [] = []
later (c ∷ path) = pieces path

pieces-element : (path : List ℕ) → pieces path ≡ element path ∷ later (after_element path)
unfolding pieces element after_element
pieces-element [] = refl
pieces-element (c ∷ path) = elim (ℕ_discrete c slash) [
  | yes e ↦ ground (arith, e)
  | no ne ↦ ground (arith, ne, ap (extend c) (pieces-element path))
]

cut-later : (path : List ℕ) → cut (later (after_element path)) ≡ cut (pieces (after_element path))
unfolding cut pieces after_element
cut-later [] = refl
cut-later (c ∷ path) = elim (ℕ_discrete c slash) [
  | yes e ↦ ground (arith, e)
  | no ne ↦ ground (arith, ne, cut-later path)
]

length-skip_slashes : (path : List ℕ) → length (skip_slashes path) ≤ length path
unfolding skip_slashes
length-skip_slashes [] = omega arith
length-skip_slashes (c ∷ path) = ground (arith, length-skip_slashes path)

length-after_element : (path : List ℕ) → length (after_element path) ≤ length path
unfolding after_element
length-after_element [] = omega arith
length-after_element (c ∷ path) = ground (arith, length-after_element path)

skip_slashes-head :
    (path : List ℕ) (c : ℕ) (rest : List ℕ) → skip_slashes path ≡ c ∷ rest → c ≢ slash
unfolding skip_slashes
skip_slashes-head [] c rest e = absurd (ground (arith, e))
skip_slashes-head (d ∷ path) c rest e = elim (ℕ_discrete d slash) [
  | yes s ↦ skip_slashes-head path c rest (ground (arith, s, e))
  | no ne ↦ ground (arith, ne, e)
]

-- One round, from a character that is no slash.
cut-element :
    (c : ℕ) (path : List ℕ)
    → c ≢ slash
    → cut (pieces (c ∷ path))
      ≡ take dirsiz (element (c ∷ path)) ∷ cut (pieces (skip_slashes (after_element (c ∷ path))))
unfolding cut element
cut-element c path ne =
    ap cut (pieces-element (c ∷ path))
    ∙ ground (arith, ne, cut-later (c ∷ path), cut-skip_slashes (after_element (c ∷ path)))

-- A round shortens the path.
length-round :
    (path : List ℕ) (c : ℕ) (p : List ℕ)
    → c ≢ slash
    → skip_slashes path ≡ c ∷ p
    → length (skip_slashes (after_element (c ∷ p))) < length path
unfolding after_element
length-round path c p ne e =
    let same : after_element (c ∷ p) ≡ after_element p = ground (arith, ne) in
    omega (
      arith,
      length-skip_slashes path,
      ap length e,
      length-skip_slashes (after_element (c ∷ p)),
      ap length same,
      length-after_element p,
    )

-- The loop of namex goes through the pieces of the path between its slashes that are not empty, in
-- their order and each cut to DIRSIZ characters, and it ends after at most as many rounds as the path
-- has characters.
pub names-cut :
    (fuel : ℕ) (path : List ℕ) → length path < fuel → names fuel path ≡ cut (pieces path)
unfolding names skipelem pieces cut
names-cut zero path l = absurd (omega arith)
names-cut (suc fuel) path l =
    from_start (names-cut fuel) (skip_slashes path) refl ∙ cut-skip_slashes path
  where
    from_start :
        ((p : List ℕ) → length p < fuel → names fuel p ≡ cut (pieces p))
        → (start : List ℕ) → skip_slashes path ≡ start
        → elim (first_element start) as (λ o. List (List ℕ)) [
          | none ↦ []
          | some p ↦ p.0 ∷ names fuel p.1
        ]
          ≡ cut (pieces start)
    from_start rest [] e = refl
    from_start rest (c ∷ p) e =
        let ne = skip_slashes-head path c p e in
        ap (λ ps. take dirsiz (element (c ∷ p)) ∷ ps)
          (rest (skip_slashes (after_element (c ∷ p)))
            (omega (arith, l, length-round path c p ne e)))
        ∙ sym (cut-element c p ne)
