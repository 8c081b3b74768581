-- ===== src/Log.antt =====
-- kernel/log.c: the file system's redo log, with the buffers of kernel/bio.c that it works on.
-- The disk is its history: what it held at boot, and every block written since. A write of a block
-- is one act of the disk. The cache keeps what it has read: that bio.c recycles a buffer which is
-- not pinned and was not changed shows in no content. `brelse` and the locks leave no trace.
pub mod Buffers
pub mod Header
pub mod Writes
pub mod Loops
pub mod Commit
pub mod Recovery
pub mod Crash
pub mod Restart
pub mod Allowance
pub mod Turns
pub mod Space
pub mod Entries
mod Tests
use model_lib.Base.{
  ℕ, zero, suc, ◌+◌, ◌-◌, ◌*◌, Bool, true, false, ◌&&◌, ◌||◌, ltb, leb, ◌==◌, if◌then◌else◌, Option,
  none, some, List, [], ◌∷◌, get_or, set, update, replicate,
}
use model_lib.Base.Words.{u32, minus_one, is_negative}
use model_lib.Base.Outcome.{Outcome, done, panic}
use model_lib.Layout.{logblocks, maxopblocks}

-- The 32-bit words of a block.
abbrev pub Block : Type 0
Block = List ℕ

-- `struct log` and what it works on: `n` and `block` are the in-memory header `log.lh`.
pub record Log : Type 0 where
  pub base : ℕ → Block
  pub written : List (ℕ × Block)
  pub cache : ℕ → Option Block
  pub pins : ℕ → ℕ
  pub start : ℕ
  pub outstanding : ℕ
  pub committing : Bool
  pub ncommit : ℕ
  pub n : ℕ
  pub block : List ℕ

-- The disk after the writes, the latest first.
pub replay : (ℕ → Block) → List (ℕ × Block) → ℕ → Block
replay base [] = base
replay base ((b, d) ∷ w) = update (replay base w) b d

pub disk : Log → ℕ → Block
disk s = replay s.base s.written

-- What a buffer of the block holds, or would hold once it is read.
pub buf : ℕ → Log → Block
buf b s = elim (s.cache b) [ some d ↦ d | none ↦ disk s b ]

-- `b->data` is given new contents.
pub store : ℕ → Block → Log → Log
store b d s = record s { cache = update s.cache b (some d) }

pub bread : ℕ → Log → Log
bread b s = store b (buf b s) s

pub bwrite : ℕ → Log → Log
bwrite b s = record s { written = (b, buf b s) ∷ s.written }

pub bpin : ℕ → Log → Log
bpin b s = record s { pins = update s.pins b (s.pins b + 1) }

pub bunpin : ℕ → Log → Log
bunpin b s = record s { pins = update s.pins b (s.pins b - 1) }

-- The home of the logged block number `tail`.
abbrev pub home : Log → ℕ → ℕ
home s tail = get_or s.block tail 0

-- One round of install_trans: copy a block from the log to its home.
pub install_one : Bool → ℕ → Log → Log
install_one recovering tail s =
    let src = s.start + tail + 1 in
    let dst = home s tail in
    let s1 = bread dst (bread src s) in
    let s2 = bwrite dst (store dst (buf src s1) s1) in if recovering then s2 else bunpin dst s2

-- `k` rounds, from `tail` on.
pub install_from : Bool → ℕ → ℕ → Log → Log
install_from recovering zero tail s = s
install_from recovering (suc k) tail s =
    install_from recovering k (tail + 1) (install_one recovering tail s)

pub install_trans : Bool → Log → Log
install_trans recovering s = install_from recovering s.n 0 s

-- `lh->n` and `lh->block[i]` are the words 0 and i + 1 of the header block. The source does not check
-- that `lh->n` is at most LOGBLOCKS; here an entry past the array is lost.
pub read_entries : ℕ → ℕ → Block → List ℕ → List ℕ
read_entries zero i d block = block
read_entries (suc k) i d block = read_entries k (i + 1) d (set block i (get_or d (i + 1) 0))

pub read_head : Log → Log
read_head s =
    let s1 = bread s.start s in
    let d = buf s.start s1 in
    record s1 { n = get_or d 0 0; block = read_entries (get_or d 0 0) 0 d s1.block }

pub write_entries : ℕ → ℕ → List ℕ → Block → Block
write_entries zero i block d = d
write_entries (suc k) i block d = write_entries k (i + 1) block (set d (i + 1) (get_or block i 0))

pub write_head : Log → Log
write_head s =
    let s1 = bread s.start s in
    bwrite s.start (store s.start (write_entries s.n 0 s.block (set (buf s.start s1) 0 s.n)) s1)

abbrev pub clear_n : Log → Log
clear_n s = record s { n = 0 }

pub recover_from_log : Log → Log
recover_from_log s = write_head (clear_n (install_trans true (read_head s)))

-- One round of write_log: copy a block from the cache to the log.
pub log_one : ℕ → Log → Log
log_one tail s =
    let dst = s.start + tail + 1 in
    let src = home s tail in
    let s1 = bread src (bread dst s) in bwrite dst (store dst (buf src s1) s1)

pub log_from : ℕ → ℕ → Log → Log
log_from zero tail s = s
log_from (suc k) tail s = log_from k (tail + 1) (log_one tail s)

pub write_log : Log → Log
write_log s = log_from s.n 0 s

pub commit : Log → Log
commit s =
    if ltb 0 s.n then write_head (clear_n (install_trans false (write_head (write_log s)))) else s

-- initlog at boot, over a disk: memory is empty, and the superblock says where the log starts.
abbrev pub booting : (ℕ → Block) → ℕ → Log
booting d start = record {
  base = d;
  written = [];
  cache = λ _. none;
  pins = λ _. 0;
  start = start;
  outstanding = 0;
  committing = false;
  ncommit = 0;
  n = 0;
  block = replicate logblocks 0;
}

pub initlog : (ℕ → Block) → ℕ → Log
initlog d start = recover_from_log (booting d start)

-- One test of begin_op's loop; `none` means that the caller sleeps on the log.
pub begin_op : Log → Option Log
begin_op s =
    if s.committing
    then none
    else if ltb logblocks (s.n + (s.outstanding + 1) * maxopblocks)
    then none
    else some (record s { outstanding = s.outstanding + 1 })

-- end_op up to the release of the lock, and whether it has to commit.
pub end_op_start : Log → Outcome (Bool × Log)
end_op_start s =
    let left = u32 (s.outstanding + minus_one) in
    if s.committing
    then panic "log.committing"
    else if left == 0
    then done (true, record s { outstanding = left; committing = true })
    else done (false, record s { outstanding = left })

-- The rest of end_op, which commits without the lock.
pub end_op_commit : Log → Log
end_op_commit s =
    let s1 = commit s in record s1 { committing = false; ncommit = u32 (s1.ncommit + 1) }

-- The index of the block in the first `k` entries from `i` on, or the one past them.
pub find_entry : ℕ → ℕ → ℕ → List ℕ → ℕ
find_entry zero i b block = i
find_entry (suc k) i b block =
    let later = find_entry k (i + 1) b block in if get_or block i 0 == b then i else later

pub log_write : ℕ → Log → Outcome Log
log_write b s =
    if leb logblocks s.n
    then panic "too big a transaction"
    else if ltb s.outstanding 1 || is_negative s.outstanding
    then panic "log_write outside of trans"
    else let i = find_entry s.n 0 b s.block in
      let s1 = record s { block = set s.block i b } in
      if i == s.n then done (record (bpin b s1) { n = s.n + 1 }) else done s1
