-- ===== src/Fs/Write.antt =====
-- writei of kernel/fs.c.
use model_lib.Base.{ℕ, ◌+◌, ◌-◌, ◌*◌, ◌/◌, ◌≤◌, ◌<◌, ◌≡◌, true, ◌&&◌, ltb, leb, if◌then◌else◌, none}
use model_lib.Base.Outcome.{done}
use model_lib.Log.{Log}
use model_lib.Log.Entries.{missing}
use model_lib.Fs.Journal.{Journaled}
use model_lib.Fs.{Fs, Inode, bsize, maxfile, Written, writei_from}
use model_lib.Fs.Blocks.{lookup, Good}
use model_lib.Fs.Content.{file_byte}
use model_lib.Fs.Rounds.{Wrote}

-- What the loop gives from a state: it returns, and does what Wrote and Journaled say.
abbrev Ran : ℕ → ℕ → ℕ → (ℕ → ℕ) → Written → Type 0
Ran fuel bmapstart n src w =
    (v : Written) × (writei_from fuel bmapstart n src (λ t. none) w ≡ done v)
    × Wrote src n w v
    × Journaled w v

-- What writei does that returns `tot`.
pub record WroteFile (src : ℕ → ℕ) (off n : ℕ) (ip : Inode) (fs : Fs) (tot : ℕ) (ip1 : Inode)
    (fs1 : Fs) : Type 0 where
  pub good : Good ip1 fs1
  pub same_disk : fs1.size ≡ fs.size
  pub at_most : tot ≤ n
  pub length : ip1.size ≡ (if ltb ip.size (off + tot) then off + tot else ip.size)
  pub bytes :
      (i : ℕ)
      → i < maxfile * bsize
      → file_byte ip1 fs1 i
        ≡ (if leb off i && ltb i (off + tot) then src (i - off) else file_byte ip fs i)
  pub out_of_space : tot < n → (b : ℕ) → b < fs.size → fs1.in_use b ≡ true

-- The block of the inode and the blocks of the bytes are in the log.
pub record InLog (iblock off tot : ℕ) (ip1 : Inode) (fs1 : Fs) (log1 : Log) : Type 0 where
  pub inode : missing iblock log1 ≡ 0
  pub blocks : (i : ℕ) → off ≤ i → i < off + tot → missing (lookup ip1 fs1 (i / bsize)) log1 ≡ 0
