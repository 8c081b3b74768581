-- ===== src/Path.antt =====
-- kernel/fs.c: skipelem, which takes a path apart, and the loop of namex over the names. A path is the
-- list of its characters without the NUL at its end; a name is what the buffer of DIRSIZ characters
-- holds up to its NUL or its end.
pub mod Names
mod Tests
use model_lib.Base.{
  ℕ, zero, suc, ◌+◌, Bool, true, false, ◌==◌, if◌then◌else◌, Option, none, some, List, [], ◌∷◌,
  take,
}

abbrev pub dirsiz : ℕ
dirsiz = 14

abbrev pub slash : ℕ
slash = 47

-- while (*path == '/') path++;
pub skip_slashes : List ℕ → List ℕ
skip_slashes [] = []
skip_slashes (c ∷ path) = let rest = skip_slashes path in if c == slash then rest else c ∷ path

-- while (*path != '/' && *path != 0) path++; what this loop passes, and where it stops.
pub element : List ℕ → List ℕ
element [] = []
element (c ∷ path) = let rest = element path in if c == slash then [] else c ∷ rest

pub after_element : List ℕ → List ℕ
after_element [] = []
after_element (c ∷ path) = let rest = after_element path in if c == slash then c ∷ path else rest

-- From the first character that is no slash.
abbrev pub first_element : List ℕ → Option (List ℕ × List ℕ)
first_element [] = none
first_element (c ∷ path) =
    some (take dirsiz (element (c ∷ path)), skip_slashes (after_element (c ∷ path)))

-- skipelem(path, name): the name and the rest of the path.
pub skipelem : List ℕ → Option (List ℕ × List ℕ)
skipelem path = first_element (skip_slashes path)

-- The names that the loop of namex goes through.
pub names : ℕ → List ℕ → List (List ℕ)
names zero path = []
names (suc fuel) path = elim (skipelem path) [ none ↦ [] | some p ↦ p.0 ∷ names fuel p.1 ]
