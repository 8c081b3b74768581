-- ===== src/Strings/Moves.antt =====
-- memmove of kernel/string.c and of user/ulib.c copies, also where the areas overlap.
use model_lib.Base.{
  ℕ, zero, suc, ◌+◌, ◌-◌, ◌%◌, ◌^◌, ◌≤◌, ◌<◌, ◌≡◌, ◌⊎◌, inl, arith, ◌&&◌, ltb, leb, if◌then◌else◌,
  update, ◌∙◌, ap, fun_ext,
}
use native.Mathlib.Decide.{dec_lt}
use model_lib.Strings.{Bytes, copy_up, copy_down, memmove, memmove_user, memset_from, memset}

-- Memory in which `n` bytes from `dst` on are those that were at `src`.
abbrev pub copied : ℕ → ℕ → ℕ → Bytes → Bytes
copied dst src n mem b = if leb dst b && ltb b (dst + n) then mem (src + (b - dst)) else mem b

copy_up-copied :
    (n s d : ℕ) (mem : Bytes) (b : ℕ)
    → (d ≤ s) ⊎ (s + n ≤ d)
    → copy_up n s d mem b ≡ copied d s n mem b
unfolding copy_up
copy_up-copied zero s d mem b h = ground arith
copy_up-copied (suc n) s d mem b h =
    copy_up-copied n (s + 1) (d + 1) (update mem d (mem s)) b (omega (arith, h))
    ∙ ground (
      arith,
      λ (l : d + 1 ≤ b). ap mem (let e : s + 1 + (b - (d + 1)) ≡ s + (b - d) = omega arith in e),
      λ (l : d ≡ b). ap mem (let e : s ≡ s + (b - d) = omega arith in e),
    )

copy_down-copied :
    (n s d : ℕ) (mem : Bytes) (b : ℕ)
    → (s ≤ d) ⊎ (d + n ≤ s)
    → copy_down n s d mem b ≡ copied d s n mem b
unfolding copy_down
copy_down-copied zero s d mem b h = ground arith
copy_down-copied (suc n) s d mem b h =
    copy_down-copied n s d (update mem (d + n) (mem (s + n))) b (omega (arith, h))
    ∙ ground (arith, λ (l : d + n ≡ b). ap mem (let e : s + n ≡ s + (b - d) = omega arith in e))

memmove-kernel :
    (dst src n : ℕ) (mem : Bytes) (b : ℕ) → memmove dst src n mem b ≡ copied dst src n mem b
unfolding memmove
memmove-kernel dst src n mem b = elim (dec_lt src dst) [
  | yes before ↦
      ground (
        arith,
        copy_down-copied n src dst mem b (inl (omega arith)),
        copy_up-copied n src dst mem b,
      )
  | no after ↦ ground (arith, copy_up-copied n src dst mem b (inl (omega arith)))
]

memmove-user :
    (dst src n : ℕ) (mem : Bytes) (b : ℕ)
    → n < 2 ^ 31
    → memmove_user dst src n mem b ≡ copied dst src n mem b
unfolding memmove_user
memmove-user dst src n mem b h = elim (dec_lt dst src) [
  | yes before ↦ ground (arith, copy_up-copied n src dst mem b (inl (omega arith)))
  | no after ↦ ground (arith, copy_down-copied n src dst mem b (inl (omega arith)))
]

-- memmove(dst, src, n) of the kernel, and that of the user library for an `n` that is not negative,
-- give the `n` bytes from `dst` on the values that the bytes from `src` on had before, also where the
-- two areas overlap, and change no other byte.
pub memmove-copied :
    (dst src n : ℕ) (mem : Bytes)
    → (memmove dst src n mem ≡ copied dst src n mem)
      × (n < 2 ^ 31 → memmove_user dst src n mem ≡ copied dst src n mem)
memmove-copied dst src n mem =
    (fun_ext (memmove-kernel dst src n mem), λ h. fun_ext (λ b. memmove-user dst src n mem b h))

memset_from_lem :
    (n dst c : ℕ) (mem : Bytes) (b : ℕ)
    → memset_from n dst c mem b ≡ (if leb dst b && ltb b (dst + n) then c % 256 else mem b)
unfolding memset_from
memset_from_lem zero dst c mem b = ground arith
memset_from_lem (suc n) dst c mem b =
    memset_from_lem n (dst + 1) c (update mem dst (c % 256)) b ∙ ground arith

-- memset fills exactly its area.
pub memset_lem :
    (dst c n : ℕ) (mem : Bytes) (b : ℕ)
    → memset dst c n mem b ≡ (if leb dst b && ltb b (dst + n) then c % 256 else mem b)
unfolding memset
memset_lem dst c n mem b = memset_from_lem n dst c mem b
