-- ===== src/Itable/Valid.antt =====
-- kernel/fs.c: one entry for each inode.
use model_lib.Base.{
  Bool, ℕ, ◌+◌, ◌<◌, ◌≡◌, ◌≢◌, ◌∙◌, ap, sym, arith, subst, true, false, update, Bool-cases, inl,
  inr, if◌then◌else◌,
}
use native.Mathlib.Decide.{ℕ_discrete}
use model_lib.Base.Words.{u32}
use model_lib.Base.Outcome.{Outcome, done, panic, no_fuel, ◌>>=◌, done_injective}
use model_lib.Fs.{Fs, Inode}
use model_lib.Itable.{Entry, Itable, ninode, is_referenced, holds, ref_down, iget, idup, iput}
use model_lib.Itable.Getting.{Got, known, fresh, full, taken, iget-Got}
use model_lib.Itable.Putting.{is_last}
use model_lib.Bio.{releasesleep}
use model_lib.Fs.Trunc.{itrunc}

-- No two entries have pointers to the same inode.
pub One : Itable → Type 0
One t =
    (dev inum i j : ℕ)
    → i < ninode
    → j < ninode
    → holds dev inum (t i) ≡ true
    → holds dev inum (t j) ≡ true
    → i ≡ j

-- A call on the table, or a change of what the lock of an entry protects.
pub data Step (t : Itable) : Itable → Type 0 where
  gets : (dev inum i : ℕ) (t1 : Itable) → iget dev inum t ≡ done (i, t1) → Step t t1
  copies : (i : ℕ) → is_referenced (t i) ≡ true → Step t (idup i t)
  puts :
      (i : ℕ) (fs fs1 : Fs) (t1 : Itable)
      → is_referenced (t i) ≡ true
      → iput i t fs ≡ done (t1, fs1)
      → Step t t1
  changes :
      (i : ℕ) (e : Entry)
      → e.dev ≡ (t i).dev
      → e.inum ≡ (t i).inum
      → e.ref ≡ (t i).ref
      → Step t (update t i e)

-- iinit(), on memory that is zero.
abbrev pub iinit : Itable
iinit i = record {
  dev = 0;
  inum = 0;
  ref = 0;
  lock = record { locked = false; pid = 0 };
  valid = false;
  type = 0;
  nlink = 0;
  node = record { addrs = λ k. 0; size = 0 };
}

pub data Reach : Itable → Type 0 where
  start : Reach iinit
  more : (t t1 : Itable) → Reach t → Step t t1 → Reach t1

-- An entry that keeps its inode, or loses its last pointer.
One-changed :
    (t t1 : Itable) (i : ℕ)
    → One t
    → ((j : ℕ) → j ≢ i → t1 j ≡ t j)
    → ((dev inum : ℕ) → holds dev inum (t1 i) ≡ true → holds dev inum (t i) ≡ true)
    → One t1
unfolding One
One-changed t t1 i one others here dev inum j k lj lk hj hk =
    one dev inum j k lj lk (back j hj) (back k hk)
  where
    back : (j : ℕ) → holds dev inum (t1 j) ≡ true → holds dev inum (t j) ≡ true
    back j h = elim (ℕ_discrete j i) [
      | yes e ↦
          subst (λ j. holds dev inum (t j) ≡ true) (sym e)
            (here dev inum (subst (λ j. holds dev inum (t1 j) ≡ true) e h))
      | no ne ↦ ap (holds dev inum) (sym (others j ne)) ∙ h
    ]

-- The counts of an entry in use change.
One-count :
    (t : Itable) (i ref : ℕ)
    → One t
    → is_referenced (t i) ≡ true
    → One (update t i (record (t i) { ref = ref }))
One-count t i ref one used =
    One-changed t (update t i (record (t i) { ref = ref })) i one (λ j ne. ground (arith, ne))
      (λ dev inum h. ground (arith, used, h))

One-taken :
    (dev inum i : ℕ) (t : Itable)
    → One t
    → ((j : ℕ) → j < ninode → holds dev inum (t j) ≡ false)
    → One (taken dev inum i t)
unfolding One
One-taken dev inum i t one out d n j k lj lk hj hk = elim (ℕ_discrete j i) [
  | yes ej ↦ elim (ℕ_discrete k i) [
    | yes ek ↦ ej ∙ sym ek
    | no nk ↦ absurd (ground (arith, out k lk, ej, nk, hj, hk))
  ]
  | no nj ↦ elim (ℕ_discrete k i) [
    | yes ek ↦ absurd (ground (arith, out j lj, ek, nj, hj, hk))
    | no nk ↦ one d n j k lj lk (ground (arith, nj, hj)) (ground (arith, nk, hk))
  ]
]

One-Got :
    (dev inum i : ℕ) (t t1 : Itable) (o : Outcome (ℕ × Itable))
    → One t
    → Got dev inum t o
    → o ≡ done (i, t1)
    → One t1
One-Got dev inum i t t1 _ one (known j l h) e =
    subst One (ap (λ p. p.1) (done_injective e))
      (One-count t j (u32 ((t j).ref + 1)) one (ground (arith, h)))
One-Got dev inum i t t1 _ one (fresh j l out z first) e =
    subst One (ap (λ p. p.1) (done_injective e)) (One-taken dev inum j t one out)
One-Got dev inum i t t1 _ one (full out used) e = absurd (ground (arith, e))

-- The entry that iput leaves when it has removed the inode.
abbrev after_last : ℕ → Itable → Inode × Fs → Itable
after_last i t p = ref_down i (
    update t i
      (record (t i) { node = p.0; type = 0; valid = false; lock = releasesleep (t i).lock }))

abbrev finish : ℕ → Itable → Inode × Fs → Outcome (Itable × Fs)
finish i t p = done (after_last i t p, p.1)

One-last :
    (i : ℕ) (t t1 : Itable) (fs1 : Fs) (o : Outcome (Inode × Fs))
    → One t
    → is_last (t i) ≡ true
    → (o >>= finish i t) ≡ done (t1, fs1)
    → One t1
One-last i t t1 fs1 (done p) one last e = subst One (ap (λ q. q.0) (done_injective e)) (
    One-changed t (after_last i t p) i one (λ j ne. ground (arith, ne))
      (λ dev inum h. absurd (ground (arith, last, h))))
One-last i t t1 fs1 (panic w) one last e = absurd (ground (arith, e))
One-last i t t1 fs1 no_fuel one last e = absurd (ground (arith, e))

One-iput :
    (i : ℕ) (t t1 : Itable) (fs fs1 : Fs)
    → One t
    → is_referenced (t i) ≡ true
    → iput i t fs ≡ done (t1, fs1)
    → One t1
unfolding iput
One-iput i t t1 fs fs1 one used e = elim (Bool-cases (is_last (t i))) [
  | inl last ↦ One-last i t t1 fs1 (itrunc (t i).node fs) one last (sym (ap branch last) ∙ e)
  | inr left ↦
      subst One (ap (λ q. q.0) (done_injective (sym (ap branch left) ∙ e)))
        (One-count t i _ one used)
]
  where
    branch : Bool → Outcome (Itable × Fs)
    branch b = if b then (itrunc (t i).node fs >>= finish i t) else done (ref_down i t, fs)

One-step : (t t1 : Itable) → One t → Step t t1 → One t1
unfolding idup
One-step t _ one (gets dev inum i t1 e) =
    One-Got dev inum i t t1 (iget dev inum t) one (iget-Got dev inum t) e
One-step t _ one (copies i used) = One-count t i _ one used
One-step t _ one (puts i fs fs1 t1 used e) = One-iput i t t1 fs fs1 one used e
One-step t _ one (changes i e d n r) =
    One-changed t (update t i e) i one (λ j ne. ground (arith, ne))
      (λ dev inum h. ground (arith, d, n, r, h))

-- From iinit on, after any calls of iget, any calls of idup and iput on pointers to entries in use, and any changes of what
-- the locks of the entries protect, in any order, no two entries have pointers to the same inode.
pub Reach-One : (t : Itable) → Reach t → One t
unfolding One
Reach-One _ start dev inum i j li lj hi hj = absurd (ground (arith, hi))
Reach-One _ (more t t1 r st) dev inum i j li lj hi hj =
    One-step t t1 (Reach-One t r) st dev inum i j li lj hi hj
