-- ===== src/Path/Tests.antt =====
-- kernel/fs.c: the path "///a//bb".
use model_lib.Base.{ℕ, ◌≡◌, refl, arith, some, List, [], ◌∷◌}
use model_lib.Path.{skip_slashes, element, after_element, skipelem, names}
use model_lib.Path.Names.{pieces, cut, names-cut}

abbrev path : List ℕ
path = 47 ∷ 47 ∷ 47 ∷ 97 ∷ 47 ∷ 47 ∷ 98 ∷ 98 ∷ []

skipelem-path : skipelem path ≡ some (97 ∷ [], 98 ∷ 98 ∷ [])
unfolding skipelem skip_slashes element after_element
skipelem-path = refl

names-cut_example : names 9 path ≡ cut (pieces path)
names-cut_example = names-cut 9 path (omega arith)
