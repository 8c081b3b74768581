-- ===== src/Itable.antt =====
-- kernel/fs.c: the inode table. What stands between acquire and release of itable.lock is one step, and
-- so is iput of the last pointer to an inode without links, which no other call can reach. The counts are
-- bit patterns of an int. Reading an inode from the disk (ilock) and writing it there (iupdate) are not modelled.
pub mod Getting
pub mod Putting
pub mod Valid
mod Tests
use model_lib.Base.{
  ℕ, zero, suc, ◌+◌, ◌-◌, ◌^◌, ◌%◌, Bool, true, false, not, ◌&&◌, ◌||◌, ◌==◌, ltb, if◌then◌else◌,
  Option, none, some, update,
}
use model_lib.Base.Words.{u32, is_negative}
use model_lib.Base.Outcome.{Outcome, done, panic, ◌>>=◌}
use model_lib.Bio.{Sleeplock, releasesleep, holdingsleep}
use model_lib.Fs.{Fs, Inode}
use model_lib.Fs.Trunc.{itrunc}

abbrev pub ninode : ℕ
ninode = 50

-- `struct inode`, with the fields of its content in `node`.
pub record Entry : Type 0 where
  pub dev : ℕ
  pub inum : ℕ
  pub ref : ℕ
  pub lock : Sleeplock
  pub valid : Bool
  pub type : ℕ
  pub nlink : ℕ
  pub node : Inode

abbrev pub Itable : Type 0
Itable = ℕ → Entry

-- `ip->ref > 0`
abbrev pub is_referenced : Entry → Bool
is_referenced e = not (e.ref == 0) && not (is_negative e.ref)

abbrev pub holds : ℕ → ℕ → Entry → Bool
holds dev inum e = is_referenced e && (e.dev == dev) && (e.inum == inum)

-- The end of iget: a free entry takes the inode.
abbrev pub take_entry : ℕ → ℕ → Option ℕ → Itable → Outcome (ℕ × Itable)
take_entry dev inum none t = panic "iget: no inodes"
take_entry dev inum (some i) t =
    done (i, update t i (record (t i) { dev = dev; inum = inum; ref = 1; valid = false }))

abbrev pub ref_up : ℕ → Itable → Itable
ref_up i t = update t i (record (t i) { ref = u32 ((t i).ref + 1) })

abbrev pub or_else : Option ℕ → Option ℕ → Option ℕ
or_else none o = o
or_else (some i) o = some i

-- The loop of iget, from the entry `i` on, with `n` to go; `empty` is the first free entry before it.
pub iget_from : ℕ → ℕ → Option ℕ → ℕ → ℕ → Itable → Outcome (ℕ × Itable)
iget_from zero i empty dev inum t = take_entry dev inum empty t
iget_from (suc n) i empty dev inum t =
    let empty1 = or_else empty (if (t i).ref == 0 then some i else none) in
    let rest = iget_from n (i + 1) empty1 dev inum t in
    if holds dev inum (t i) then done (i, ref_up i t) else rest

-- iget(dev, inum)
pub iget : ℕ → ℕ → Itable → Outcome (ℕ × Itable)
iget dev inum t = iget_from ninode 0 none dev inum t

-- idup(ip)
pub idup : ℕ → Itable → Itable
idup i t = ref_up i t

-- iunlock(ip) by the process `pid`; ip is not 0.
pub iunlock : ℕ → ℕ → Itable → Outcome Itable
iunlock pid i t =
    if not (holdingsleep pid (t i).lock) || not (is_referenced (t i))
    then panic "iunlock"
    else done (update t i (record (t i) { lock = releasesleep (t i).lock }))

abbrev pub ref_down : ℕ → Itable → Itable
ref_down i t = update t i (record (t i) { ref = u32 ((t i).ref + (2 ^ 32 - 1)) })

-- iput(ip)
pub iput : ℕ → Itable → Fs → Outcome (Itable × Fs)
iput i t fs =
    let e = t i in
    if (e.ref == 1) && e.valid && (e.nlink == 0)
    then (itrunc e.node fs >>= λ p. done (
      ref_down i (
          update t i
            (record e { node = p.0; type = 0; valid = false; lock = releasesleep e.lock })),
      p.1,
    ))
    else done (ref_down i t, fs)
