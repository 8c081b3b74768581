-- ===== src/Itable/Getting.antt =====
-- kernel/fs.c: iget.
use model_lib.Base.{
  ℕ, zero, suc, ◌+◌, ◌<◌, ◌≡◌, ◌≢◌, sym, refl, arith, subst, true, false, inl, inr, Bool-cases,
  ◌==◌, if◌then◌else◌, Option, none, some, update,
}
use native.Mathlib.Decide.{ℕ_discrete}
use model_lib.Base.Outcome.{Outcome, done, panic}
use model_lib.Itable.{Itable, ninode, holds, ref_up, or_else, iget_from, iget}

-- The table after the entry `i` took an inode.
abbrev pub taken : ℕ → ℕ → ℕ → Itable → Itable
taken dev inum i t = update t i (record (t i) { dev = dev; inum = inum; ref = 1; valid = false })

-- What iget does.
pub data Got (dev inum : ℕ) (t : Itable) : Outcome (ℕ × Itable) → Type 0 where
  known : (i : ℕ) → i < ninode → holds dev inum (t i) ≡ true → Got dev inum t (done (i, ref_up i t))
  fresh :
      (i : ℕ)
      → i < ninode
      → ((j : ℕ) → j < ninode → holds dev inum (t j) ≡ false)
      → (t i).ref ≡ 0
      → ((j : ℕ) → j < i → (t j).ref ≢ 0)
      → Got dev inum t (done (i, taken dev inum i t))
  full :
      ((j : ℕ) → j < ninode → holds dev inum (t j) ≡ false)
      → ((j : ℕ) → j < ninode → (t j).ref ≢ 0)
      → Got dev inum t (panic "iget: no inodes")

-- The first free entry before `i`.
pub data FirstFree (t : Itable) (i : ℕ) : Option ℕ → Type 0 where
  none_free : ((j : ℕ) → j < i → (t j).ref ≢ 0) → FirstFree t i none
  is_free :
      (k : ℕ) → k < i → (t k).ref ≡ 0 → ((j : ℕ) → j < k → (t j).ref ≢ 0) → FirstFree t i (some k)

below_next : (P : ℕ → Type 0) (i : ℕ) → ((j : ℕ) → j < i → P j) → P i → (j : ℕ) → j < i + 1 → P j
below_next P i h p j l = elim (ℕ_discrete j i) [
  | yes e ↦ subst P (sym e) p
  | no ne ↦ h j (omega (arith, ne))
]

FirstFree-next :
    (t : Itable) (i : ℕ) (o : Option ℕ)
    → FirstFree t i o
    → FirstFree t (i + 1) (or_else o (if (t i).ref == 0 then some i else none))
FirstFree-next t i _ (is_free k l z h) = is_free k (omega arith) z h
FirstFree-next t i _ (none_free h) = elim (ℕ_discrete (t i).ref 0) [
  | yes z ↦ subst (FirstFree t (i + 1)) (ground (arith, z)) (is_free i (omega arith) z h)
  | no nz ↦
      subst (FirstFree t (i + 1)) (ground (arith, nz))
        (none_free (below_next (λ j. (t j).ref ≢ 0) i h nz))
]

iget_from-Got :
    (n i : ℕ) (o : Option ℕ) (dev inum : ℕ) (t : Itable)
    → i + n ≡ ninode
    → FirstFree t i o
    → ((j : ℕ) → j < i → holds dev inum (t j) ≡ false)
    → Got dev inum t (iget_from n i o dev inum t)
unfolding iget_from
iget_from-Got zero i _ dev inum t e (none_free h) out =
    full (λ j l. out j (omega arith)) (λ j l. h j (omega arith))
iget_from-Got zero i _ dev inum t e (is_free k l z h) out =
    fresh k (omega arith) (λ j l. out j (omega arith)) z h
iget_from-Got (suc n) i o dev inum t e f out = elim (Bool-cases (holds dev inum (t i))) [
  | inl here ↦ subst (Got dev inum t) (ground (arith, here)) (known i (omega arith) here)
  | inr other ↦ subst (Got dev inum t) (ground (arith, other)) (
      iget_from-Got n (i + 1) (or_else o (if (t i).ref == 0 then some i else none)) dev inum t
        (omega arith) (FirstFree-next t i o f)
        (below_next (λ j. holds dev inum (t j) ≡ false) i out other))
]

-- iget returns an entry in use that has the inode, with one pointer more, if there is one; otherwise the first
-- free entry, which then has the inode, is not read yet and has one pointer; it panics only if no entry
-- is free.
pub iget-Got : (dev inum : ℕ) (t : Itable) → Got dev inum t (iget dev inum t)
unfolding iget
iget-Got dev inum t =
    iget_from-Got ninode 0 none dev inum t refl (none_free (λ j l. absurd (omega arith)))
      (λ j l. absurd (omega arith))
