-- ===== src/Log/Recovery.antt =====
-- initlog of kernel/log.c: the disk after a recovery from a header on the disk.
use model_lib.Base.{
  ℕ, zero, suc, ◌+◌, ◌≤◌, ◌<◌, ◌≡◌, arith, refl, ◌==◌, true, if◌then◌else◌, List, [], ◌∷◌, get_or,
  set, ◌∙◌, sym, ap, ap₂, length, subst, replicate,
}
use model_lib.Layout.{logblocks}
use model_lib.Log.{
  Log, Block, replay, disk, buf, store, bread, install_trans, install_from, write_entries, clear_n,
  read_head, read_entries, recover_from_log, booting, initlog,
}
use model_lib.Log.Header.{read_entries-entry}
use model_lib.Log.Writes.{Outside, installs, listed, replay-installs}
use model_lib.Log.Loops.{Installed, install_from-Installed, write_head-HeadWritten}

pub listed_agree :
    (f g : ℕ → Block) (block other : List ℕ) (k t b : ℕ)
    → ((j : ℕ) → t ≤ j → j < t + k → get_or other j 0 ≡ get_or block j 0)
    → listed f other k t b ≡ listed g block k t b
unfolding listed
listed_agree f g block other zero t b agree = refl
listed_agree f g block other (suc k) t b agree = ground (
  arith,
  agree t (omega arith) (omega arith),
  listed_agree f g block other k (t + 1) b (λ j h l. agree j (omega arith) (omega arith)),
)

-- A disk `d` whose header at `start` has the first `n` entries of `block`, and in whose log the
-- contents `f` of those entries are saved.
pub record Saved (f : ℕ → Block) (start n : ℕ) (block : List ℕ) (d : ℕ → Block) : Type 0 where
  pub count : get_or (d start) 0 0 ≡ n
  pub entries : (j : ℕ) → j < n → get_or (d start) (j + 1) 0 ≡ get_or block j 0
  pub contents : (j : ℕ) → j < n → d (start + j + 1) ≡ f (get_or block j 0)

module _ (f : ℕ → Block) (start n : ℕ) (block : List ℕ) (d : ℕ → Block) (small : n ≤ 30)
    (out : (j : ℕ) → j < n → Outside start (get_or block j 0))
    (saved : Saved f start n block d) where
  abbrev pub read : Log
  read = read_head (booting d start)

  abbrev pub read_block : List ℕ
  read_block = read_entries n 0 (d start) (replicate logblocks 0)

  read_n : read.n ≡ n
  unfolding read_head buf disk replay bread store
  read_n = ground (arith, saved.count)

  read_is : read.block ≡ read_block
  unfolding read_head buf disk replay bread store
  read_is = ground (arith, saved.count)

  read_base : read.base ≡ d
  unfolding read_head bread store
  read_base = refl

  read_start : read.start ≡ start
  unfolding read_head bread store
  read_start = refl

  read_written : read.written ≡ []
  unfolding read_head bread store
  read_written = refl

  buf-read : (c : ℕ) → buf c read ≡ d c
  unfolding read_head buf disk replay bread store
  buf-read c = ground arith

  room : 0 + n ≤ length {A = ℕ} (replicate logblocks 0)
  room = let h : 0 + n ≤ 30 = omega arith in h

  pub read-entry : (j : ℕ) → j < n → get_or read_block j 0 ≡ get_or block j 0
  read-entry j h =
      read_entries-entry n 0 j (replicate logblocks 0) (d start) (omega arith) (omega arith) room
      ∙ saved.entries j h

  read-saved : (j : ℕ) → j < n → buf (start + j + 1) read ≡ f (get_or read_block j 0)
  read-saved j h = buf-read (start + j + 1) ∙ saved.contents j h ∙ ap f (sym (read-entry j h))

  read-out : (j : ℕ) → j < n → Outside start (get_or read_block j 0)
  read-out j h = subst (Outside start) (sym (read-entry j h)) (out j h)

  abbrev installed_log : Log
  installed_log = install_trans true read

  installed : Installed f start n read_block small read-out n 0 read installed_log
  unfolding install_trans
  installed =
      subst
        (λ k. Installed f start n read_block small read-out n 0 read (install_from true k 0 read))
        (sym read_n)
        (install_from-Installed f start n read_block small read-out true n 0 read (omega arith)
          (read_start, read_is) read-saved)

  pub written-initlog :
      (initlog d start).written ≡ (start, set (d start) 0 0) ∷ installs f read_block n 0 []
  unfolding initlog recover_from_log write_entries buf disk
  written-initlog =
      (write_head-HeadWritten (clear_n installed_log)).writes
      ∙ cc (
        installed.same.same_start,
        read_start,
        ap (λ b. buf b installed_log) (installed.same.same_start ∙ read_start),
        installed.head,
        buf-read start,
        installed.writes,
        read_written,
      )

  base-initlog : (initlog d start).base ≡ d
  unfolding initlog recover_from_log
  base-initlog =
      (write_head-HeadWritten (clear_n installed_log)).same.same_base
      ∙ installed.same.same_base
      ∙ read_base

  -- A recovery gives the blocks that the header lists the contents saved in the log, keeps the
  -- others, and leaves a header without entries.
  pub disk-initlog :
      (b : ℕ)
      → disk (initlog d start) b
        ≡ (if start == b then set (d start) 0 0 else if listed f block n 0 b then f b else d b)
  unfolding disk replay
  disk-initlog b =
      ap₂ (λ base w. replay base w b) base-initlog written-initlog
      ∙ ground (
        arith,
        replay-installs f read_block d n 0 b [],
        listed_agree f f block read_block n 0 b (λ j h l. read-entry j (omega arith)),
      )
