-- ===== src/Itable/Putting.antt =====
-- kernel/fs.c: iput.
use model_lib.Base.{
  ℕ, ◌≡◌, ◌≢◌, ◌∙◌, ap, sym, arith, subst, Bool, true, false, inl, inr, Bool-cases, ◌&&◌, ◌==◌,
  if◌then◌else◌, update,
}
use model_lib.Base.Outcome.{Outcome, done, ◌>>=◌}
use model_lib.Bio.{releasesleep}
use model_lib.Fs.{Fs, Inode}
use model_lib.Fs.Blocks.{Good}
use model_lib.Fs.Trunc.{itrunc}
use model_lib.Fs.Trunc.Emptied.{Emptied, itrunc-Emptied}
use model_lib.Itable.{Entry, Itable, ref_down, iput}

-- The last pointer to an inode that has been read and has no links.
abbrev pub is_last : Entry → Bool
is_last e = (e.ref == 1) && e.valid && (e.nlink == 0)

-- The entry of an inode that iput has removed; `ip1` is the emptied inode.
pub record Removed (t t1 : Itable) (i : ℕ) (ip1 : Inode) : Type 0 where
  pub node : (t1 i).node ≡ ip1
  pub unused : (t1 i).ref ≡ 0
  pub type : (t1 i).type ≡ 0
  pub not_valid : (t1 i).valid ≡ false
  pub unlocked : (t1 i).lock.locked ≡ false
  pub same_inode : ((t1 i).dev ≡ (t i).dev) × ((t1 i).inum ≡ (t i).inum)
  pub others : (j : ℕ) → j ≢ i → t1 j ≡ t j

-- What iput does.
pub data Put (i : ℕ) (t : Itable) (fs : Fs) : Outcome (Itable × Fs) → Type 0 where
  removed :
      (t1 : Itable) (ip1 : Inode) (fs1 : Fs)
      → is_last (t i) ≡ true
      → Emptied (t i).node fs ip1 fs1
      → Removed t t1 i ip1
      → Put i t fs (done (t1, fs1))
  dropped : is_last (t i) ≡ false → Put i t fs (done (ref_down i t, fs))

-- iput of the last pointer to an inode that has been read and has no links empties the file, so that its blocks are free
-- and no others, and leaves the entry free; any other iput only counts one pointer less. It returns if the
-- blocks of the inode are in use and differ.
pub iput-Put : (i : ℕ) (t : Itable) (fs : Fs) → Good (t i).node fs → Put i t fs (iput i t fs)
unfolding iput releasesleep
iput-Put i t fs good = elim (Bool-cases (is_last (t i))) [
  | inr more ↦ subst (Put i t fs) (ground (arith, more)) (dropped more)
  | inl last ↦
      let (ip1, fs1, e, emptied) = itrunc-Emptied (t i).node fs good in
      let after = λ (p : Inode × Fs). ref_down i (
        update t i
          (record (t i) { node = p.0; type = 0; valid = false; lock = releasesleep (t i).lock })) in
      let run : iput i t fs ≡ done (after (ip1, fs1), fs1) =
        ap
          (λ b.
            if b
            then (itrunc (t i).node fs >>= λ p. done (after p, p.1))
            else done (ref_down i t, fs))
          last
        ∙ ap (λ o. o >>= λ p. done (after p, p.1)) e in
      subst (Put i t fs) (sym run) (
        removed (after (ip1, fs1)) ip1 fs1 last emptied record {
          node = ground arith;
          unused = ground (arith, last);
          type = ground arith;
          not_valid = ground arith;
          unlocked = ground arith;
          same_inode = (ground arith, ground arith);
          others = λ j ne. ground (arith, ne);
        })
]
