-- ===== src/Log/Commit.antt =====
-- commit and recovery of kernel/log.c as a whole: the writes of a commit, and the disk after a
-- recovery.
use model_lib.Base.{
  ℕ, ◌+◌, ◌≤◌, ◌<◌, ◌≡◌, arith, refl, false, List, ◌∷◌, get_or, set, ◌∙◌, sym, ap, length, subst,
}
use model_lib.Log.{
  Log, Block, disk, buf, install_trans, write_log, write_head, commit, clear_n, install_from,
  write_entries,
}
use model_lib.Log.Buffers.{SameLog, SameLog-trans}
use model_lib.Log.Header.{header}
use model_lib.Log.Writes.{Outside, installs, logs}
use model_lib.Log.Loops.{
  Logged, log_from-Logged, Installed, install_from-Installed, HeadWritten, write_head-HeadWritten,
}

-- A transaction that fits: its homes lie outside the log, and the header block has room.
pub record Fits (s : Log) : Type 0 where
  pub small : s.n ≤ 30
  pub out : (j : ℕ) → j < s.n → Outside s.start (get_or s.block j 0)
  pub room : 30 < length (buf s.start s)

-- The contents that a transaction gives to the blocks: those in the cache.
abbrev pub contents : Log → ℕ → Block
contents s b = buf b s

-- The header block of the transaction.
abbrev pub full_header : Log → Block
full_header s = header s.n s.block (buf s.start s)

-- Everything that a commit writes: the log, the header, the homes, the header without entries.
abbrev pub commit_writes : Log → List (ℕ × Block)
commit_writes s =
    (s.start, set (full_header s) 0 0)
    ∷ installs (contents s) s.block s.n 0
        ((s.start, full_header s) ∷ logs (contents s) s.block s.start s.n 0 s.written)

module _ (s : Log) (fits : Fits s) where
  logged : Logged (contents s) s.start s.n s.block fits.small fits.out s.n 0 s (write_log s)
  unfolding write_log
  logged =
      log_from-Logged (contents s) s.start s.n s.block fits.small fits.out s.n 0 s (omega arith)
        (refl, refl) (λ b o. refl)

  abbrev at_header : Log
  at_header = write_head (write_log s)

  headed : HeadWritten (write_log s) at_header
  headed = write_head-HeadWritten (write_log s)

  headed-head :
      header (write_log s).n (write_log s).block (buf (write_log s).start (write_log s))
      ≡ full_header s
  headed-head = cc (
    logged.same.same_n,
    logged.same.same_block,
    ap (λ b. buf b (write_log s)) logged.same.same_start,
    logged.head,
  )

  headed-writes :
      at_header.written
      ≡ (s.start, full_header s) ∷ logs (contents s) s.block s.start s.n 0 s.written
  headed-writes = headed.writes ∙ cc (logged.same.same_start, headed-head, logged.writes)

  headed-saved :
      (j : ℕ) → j < s.n → buf (s.start + j + 1) at_header ≡ contents s (get_or s.block j 0)
  headed-saved j h =
      headed.buffers (s.start + j + 1)
      ∙ ground (arith, logged.same.same_start, logged.saved j (omega arith) (omega arith))

  headed-same : SameLog s at_header
  headed-same = SameLog-trans logged.same headed.same

  installed :
      Installed
        (contents s)
        s.start
        s.n
        s.block
        fits.small
        fits.out
        s.n
        0
        at_header
        (install_trans false at_header)
  unfolding install_trans
  installed =
      subst
        (λ k.
          Installed (contents s) s.start s.n s.block fits.small fits.out s.n 0 at_header
            (install_from false k 0 at_header))
        (sym headed-same.same_n)
        (install_from-Installed (contents s) s.start s.n s.block fits.small fits.out false s.n 0
          at_header (omega arith) (headed-same.same_start, headed-same.same_block) headed-saved)

  abbrev after_install : Log
  after_install = install_trans false at_header

  installed-head : buf after_install.start after_install ≡ full_header s
  installed-head =
      ap (λ b. buf b after_install) (installed.same.same_start ∙ headed-same.same_start)
      ∙ installed.head
      ∙ headed.buffers s.start
      ∙ ground (arith, logged.same.same_start, headed-head)

  cleared :
      (write_head (clear_n after_install)).written
      ≡ (after_install.start, set (buf after_install.start after_install) 0 0)
        ∷ after_install.written
  unfolding write_entries buf disk
  cleared = (write_head-HeadWritten (clear_n after_install)).writes

  cleared-writes : (write_head (clear_n after_install)).written ≡ commit_writes s
  cleared-writes =
      cleared
      ∙ cc (
        installed.same.same_start, headed-same.same_start, installed-head, installed.writes,
        headed-writes,
      )

  -- What a commit writes, in the order in which it writes it.
  pub commit-writes : 0 < s.n → (commit s).written ≡ commit_writes s
  unfolding commit
  commit-writes h = ground (arith, cleared-writes)

  -- A commit does not change what the disk held at boot.
  pub commit-base : 0 < s.n → (commit s).base ≡ s.base
  unfolding commit
  commit-base h = ground (
    arith,
    (write_head-HeadWritten (clear_n after_install)).same.same_base,
    installed.same.same_base,
    headed-same.same_base,
  )
