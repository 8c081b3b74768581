-- ===== src/Strings/Tests.antt =====
-- Copies in a small memory, where each address holds itself.
use model_lib.Base.{◌-◌, ◌^◌, ◌<◌, ◌≡◌, inr, arith, refl, some, [], ◌∷◌, if◌then◌else◌, ltb}
use model_lib.Strings.{
  Bytes, memmove, memmove_user, copy_up, copy_down, safestrcpy, safestrcpy_from, strncpy,
  strncpy_from, pad_from, strlen_from, strchr, strchr_from, strcmp, strncmp, memcmp, memset,
  memset_from, strcpy_from,
}
use model_lib.Strings.Moves.{copied, memmove-copied}
use model_lib.Strings.Copies.{Terminated, safestrcpy-Terminated}

abbrev identity : Bytes
identity b = b

memmove-copied_example :
    (memmove 12 10 5 identity ≡ copied 12 10 5 identity)
    × (5 < 2 ^ 31 → memmove_user 12 10 5 identity ≡ copied 12 10 5 identity)
memmove-copied_example = memmove-copied 12 10 5 identity

overlapping : memmove 12 10 5 identity 16 ≡ 14
unfolding memmove copy_down copy_up
overlapping = refl

-- "hi" at 200
abbrev hi : Bytes
hi b = if ltb b 200 then 1 else if ltb b 202 then b - 96 else 0

safestrcpy-Terminated_example : Terminated (2 - 1) 100 200 hi (safestrcpy 100 200 2 hi)
safestrcpy-Terminated_example =
    safestrcpy-Terminated 100 200 2 hi (omega arith) (omega arith) (inr (omega arith))

cut : safestrcpy 100 200 2 hi 101 ≡ 0
unfolding safestrcpy safestrcpy_from
cut = refl

length_hi : strlen_from 5 0 200 hi ≡ some 2
unfolding strlen_from
length_hi = refl

padded : strncpy 100 200 5 hi 104 ≡ 0
unfolding strncpy strncpy_from pad_from
padded = refl

found : strchr (104 ∷ 105 ∷ []) 105 ≡ some 1
unfolding strchr strchr_from
found = refl

smaller : strcmp (104 ∷ []) (105 ∷ []) ≡ 2 ^ 32 - 1
unfolding strcmp
smaller = refl

differs : memcmp 10 12 3 identity ≡ 2 ^ 32 - 2
unfolding memcmp
differs = refl

same_start : strncmp (104 ∷ 105 ∷ []) (104 ∷ []) 1 ≡ 0
unfolding strncmp
same_start = refl

strcpy_runs : (mem : Bytes) × (strcpy_from 9 100 200 hi ≡ some mem) × (mem 101 ≡ 105)
unfolding strcpy_from
strcpy_runs = (_, refl, refl)

filled : memset 10 300 2 identity 11 ≡ 44
unfolding memset memset_from
filled = refl
