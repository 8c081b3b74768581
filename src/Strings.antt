-- ===== src/Strings.antt =====
-- kernel/string.c and the string functions of user/ulib.c. Memory is a function from addresses to
-- bytes; a C string that is only read is the list of its characters before the NUL.
pub mod Moves
pub mod Copies
mod Tests
use model_lib.Base.{
  ℕ, zero, suc, ◌+◌, ◌-◌, ◌*◌, ◌%◌, ◌^◌, Bool, true, false, ◌==◌, ◌&&◌, ◌||◌, ltb, leb,
  if◌then◌else◌, Option, none, some, List, [], ◌∷◌, update,
}
use model_lib.Base.Words.{u32, is_negative}

abbrev pub Bytes : Type 0
Bytes = ℕ → ℕ

-- `n`, which is an int, as the number of rounds of `while (n-- > 0)`.
abbrev pub rounds : ℕ → ℕ
rounds n = if is_negative n then 0 else n

pub memset_from : ℕ → ℕ → ℕ → Bytes → Bytes
memset_from zero dst c mem = mem
memset_from (suc n) dst c mem = memset_from n (dst + 1) c (update mem dst (c % 256))

-- memset(dst, c, n)
pub memset : ℕ → ℕ → ℕ → Bytes → Bytes
memset dst c n mem = memset_from n dst c mem

-- `while (n-- > 0) *d++ = *s++`
pub copy_up : ℕ → ℕ → ℕ → Bytes → Bytes
copy_up zero s d mem = mem
copy_up (suc n) s d mem = copy_up n (s + 1) (d + 1) (update mem d (mem s))

-- `while (n-- > 0) *--d = *--s`, where both are `n` past their starts.
pub copy_down : ℕ → ℕ → ℕ → Bytes → Bytes
copy_down zero s d mem = mem
copy_down (suc n) s d mem = copy_down n s d (update mem (d + n) (mem (s + n)))

-- memmove(dst, src, n) of the kernel, and of the user library.
pub memmove : ℕ → ℕ → ℕ → Bytes → Bytes
memmove dst src n mem =
    if n == 0
    then mem
    else if ltb src dst && ltb dst (src + n)
    then copy_down n src dst mem
    else copy_up n src dst mem

pub memmove_user : ℕ → ℕ → ℕ → Bytes → Bytes
memmove_user dst src n mem =
    if ltb dst src then copy_up (rounds n) src dst mem else copy_down (rounds n) src dst mem

-- A difference of two bytes, as an int.
abbrev pub byte_diff : ℕ → ℕ → ℕ
byte_diff x y = u32 (x + 2 ^ 32 - y)

-- memcmp(v1, v2, n)
pub memcmp : ℕ → ℕ → ℕ → Bytes → ℕ
memcmp v1 v2 zero mem = 0
memcmp v1 v2 (suc n) mem =
    let rest = memcmp (v1 + 1) (v2 + 1) n mem in
    if mem v1 == mem v2 then rest else byte_diff (mem v1) (mem v2)

-- strncmp(p, q, n)
pub strncmp : List ℕ → List ℕ → ℕ → ℕ
strncmp p q zero = 0
strncmp [] [] (suc n) = 0
strncmp [] (y ∷ q) (suc n) = byte_diff 0 y
strncmp (x ∷ p) [] (suc n) = byte_diff x 0
strncmp (x ∷ p) (y ∷ q) (suc n) = if x == y then strncmp p q n else byte_diff x y

-- strcmp(p, q)
pub strcmp : List ℕ → List ℕ → ℕ
strcmp [] [] = 0
strcmp [] (y ∷ q) = byte_diff 0 y
strcmp (x ∷ p) [] = byte_diff x 0
strcmp (x ∷ p) (y ∷ q) = if x == y then strcmp p q else byte_diff x y

-- strncpy(s, t, n): the padding, and the whole loop.
pub pad_from : ℕ → ℕ → Bytes → Bytes
pad_from zero s mem = mem
pad_from (suc n) s mem = pad_from n (s + 1) (update mem s 0)

pub strncpy_from : ℕ → ℕ → ℕ → Bytes → Bytes
strncpy_from zero s t mem = mem
strncpy_from (suc n) s t mem =
    let mem1 = update mem s (mem t) in
    let more = strncpy_from n (s + 1) (t + 1) mem1 in
    let padded = pad_from n (s + 1) mem1 in if mem t == 0 then padded else more

pub strncpy : ℕ → ℕ → ℕ → Bytes → Bytes
strncpy s t n mem = strncpy_from (rounds n) s t mem

-- safestrcpy(s, t, n), with at most `n` more characters to copy before the NUL. The source writes the
-- NUL once more if it was copied.
pub safestrcpy_from : ℕ → ℕ → ℕ → Bytes → Bytes
safestrcpy_from zero s t mem = update mem s 0
safestrcpy_from (suc n) s t mem =
    let mem1 = update mem s (mem t) in
    let more = safestrcpy_from n (s + 1) (t + 1) mem1 in
    if mem t == 0 then update mem1 (s + 1) 0 else more

pub safestrcpy : ℕ → ℕ → ℕ → Bytes → Bytes
safestrcpy s t n mem = if n == 0 || is_negative n then mem else safestrcpy_from (n - 1) s t mem

-- strlen(s), where the NUL is looked for at `fuel` places.
pub strlen_from : ℕ → ℕ → ℕ → Bytes → Option ℕ
strlen_from zero n s mem = none
strlen_from (suc fuel) n s mem =
    let more = strlen_from fuel (n + 1) s mem in if mem (s + n) == 0 then some n else more

-- strcpy(s, t), in at most `fuel` rounds.
pub strcpy_from : ℕ → ℕ → ℕ → Bytes → Option Bytes
strcpy_from zero s t mem = none
strcpy_from (suc fuel) s t mem =
    let mem1 = update mem s (mem t) in
    let more = strcpy_from fuel (s + 1) (t + 1) mem1 in if mem t == 0 then some mem1 else more

-- strchr(s, c): the index of the first `c`.
pub strchr_from : ℕ → List ℕ → ℕ → Option ℕ
strchr_from i [] c = none
strchr_from i (x ∷ s) c = if x == c then some i else strchr_from (i + 1) s c

pub strchr : List ℕ → ℕ → Option ℕ
strchr s c = strchr_from 0 s c

-- atoi(s), with `n` so far.
unfoldable pub atoi_from : ℕ → List ℕ → ℕ
atoi_from n [] = n
atoi_from n (c ∷ s) = if leb 48 c && leb c 57 then atoi_from (u32 (n * 10 + c - 48)) s else n

unfoldable pub atoi : List ℕ → ℕ
atoi s = atoi_from 0 s
