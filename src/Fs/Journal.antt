-- ===== src/Fs/Journal.antt =====
-- kernel/fs.c: the blocks that writei has written are in the log.
use model_lib.Base.{ℕ, ◌+◌, ◌-◌, ◌*◌, ◌/◌, ◌≤◌, ◌<◌, ◌≡◌, ◌≢◌, arith, refl, ◌∙◌, ap, sym, subst}
use native.Mathlib.Decide.{dec_lt, ℕ_discrete}
use model_lib.Layout.{logblocks}
use model_lib.Log.{Log}
use model_lib.Log.Entries.{Open, missing, Logged}
use model_lib.Fs.{Fs, Inode, bsize, maxfile, Written}
use model_lib.Fs.Blocks.{lookup}
use model_lib.Fs.Direct.{Mapped}
use model_lib.Fs.Content.{lookup-rewritten}
use model_lib.Fs.Rounds.{after, new_bytes}

-- What the loop of writei does to the log on the way from the state `w` to the state `v`: the blocks of the bytes
-- that it has written are in it, and there is room for one more.
pub record Journaled (w v : Written) : Type 0 where
  pub still_open : Open v.log
  pub free : v.log.n < logblocks
  pub kept : (c : ℕ) → missing c v.log ≤ missing c w.log
  pub stays :
      (bn : ℕ)
      → bn < maxfile
      → lookup w.inode w.disk bn ≢ 0
      → lookup v.inode v.disk bn ≡ lookup w.inode w.disk bn
  pub logged :
      (i : ℕ) → w.off ≤ i → i < v.off → missing (lookup v.inode v.disk (i / bsize)) v.log ≡ 0

pub Journaled-nothing : (w : Written) → Open w.log → w.log.n < logblocks → Journaled w w
Journaled-nothing w o free = record {
  still_open = o;
  free = free;
  kept = λ c. omega arith;
  stays = λ bn h nz. refl;
  logged = λ i h l. absurd (omega arith);
}

-- The block that was asked for, and the others, stay.
Mapped-stays :
    (target r : ℕ) (ip ip1 : Inode) (fs fs1 : Fs)
    → Mapped target ip fs r ip1 fs1
    → (bn : ℕ) → bn < maxfile
    → lookup ip fs bn ≢ 0
    → lookup ip1 fs1 bn ≡ lookup ip fs bn
Mapped-stays target r ip ip1 fs fs1 m bn h nz = elim (ℕ_discrete bn target) [
  | yes e ↦
      let there : lookup ip fs target ≢ 0 = subst (λ b. lookup ip fs b ≢ 0) e nz in
      ap (lookup ip1 fs1) e ∙ m.here ∙ m.kept there ∙ ap (lookup ip fs) (sym e)
  | no ne ↦ m.there bn h ne
]

pub Journaled-stopped :
    (w : Written) (ip1 : Inode) (fs1 : Fs) (log1 : Log) (r : ℕ)
    → Mapped (w.off / bsize) w.inode w.disk r ip1 fs1
    → Open log1
    → log1.n < logblocks
    → ((c : ℕ) → missing c log1 ≤ missing c w.log)
    → Journaled w (record w { inode = ip1; disk = fs1; log = log1 })
Journaled-stopped w ip1 fs1 log1 r m o free kept = record {
  still_open = o;
  free = free;
  kept = kept;
  stays = λ bn h nz. Mapped-stays (w.off / bsize) r w.inode ip1 w.disk fs1 m bn h nz;
  logged = λ i h l. absurd (omega arith);
}

module _ (src : ℕ → ℕ) (n : ℕ) (w : Written) (ip1 : Inode) (fs1 : Fs)
    (m : Mapped (w.off / bsize) w.inode w.disk (lookup ip1 fs1 (w.off / bsize)) ip1 fs1)
    (more : w.tot < n) (room : w.off + (n - w.tot) ≤ maxfile * bsize)
    (there : lookup ip1 fs1 (w.off / bsize) ≢ 0) (log1 log2 : Log)
    (kept : (c : ℕ) → missing c log1 ≤ missing c w.log)
    (stored : Logged (lookup ip1 fs1 (w.off / bsize)) log1 log2) where
  abbrev w1 : Written
  w1 = after src n w ip1 fs1 m more room there log2

  same : (bn : ℕ) → lookup w1.inode w1.disk bn ≡ lookup ip1 fs1 bn
  same bn =
      lookup-rewritten ip1 fs1 (w.off / bsize) (new_bytes src n w ip1 fs1 m more room there log2)
        m.good (omega (arith, room, more)) there bn

  -- A round that writes, before the others.
  pub Journaled-round : (v : Written) → Journaled w1 v → Journaled w v
  Journaled-round v rest = record {
    still_open = rest.still_open;
    free = rest.free;
    kept = λ c. omega (arith, rest.kept c, stored.kept c, kept c);
    stays = λ bn h nz.
        let first = Mapped-stays (w.off / bsize) _ w.inode ip1 w.disk fs1 m bn h nz in
        let so_far = same bn ∙ first in rest.stays bn h (λ z. nz (sym so_far ∙ z)) ∙ so_far;
    logged = λ i h l. elim (dec_lt i w1.off) [
      | yes here ↦
          let block : i / bsize ≡ w.off / bsize = omega (arith, here, h) in
          let at_v =
            rest.stays (w.off / bsize) (omega (arith, room, more))
              (λ z. there (sym (same (w.off / bsize)) ∙ z))
            ∙ same (w.off / bsize) in
          let count = ap (λ b. missing (lookup v.inode v.disk b) v.log) block in
          let count1 = ap (λ b. missing b v.log) at_v in
          omega (arith, count, count1, rest.kept (lookup ip1 fs1 (w.off / bsize)), stored.there)
      | no later ↦ rest.logged i (omega (arith, later)) l
    ];
  }
