-- ===== src/Fs/Touched.antt =====
-- kernel/fs.c and kernel/file.c: how many blocks a write touches.
use model_lib.Base.{ℕ, suc, min, ◌==◌, ◌%◌, ◌+◌, ◌-◌, ◌*◌, ◌/◌, ◌≤◌, ◌<◌, ◌≡◌, arith, if◌then◌else◌}
use model_lib.Layout.{logblocks, maxopblocks}
use model_lib.Log.{Log}
use model_lib.Log.Entries.{Open}
use model_lib.Fs.Spending.{missing_bound}
use model_lib.Fs.Budget.{missing_indirect, Room}
use model_lib.Fs.{Inode, bsize}

-- The rounds that the loop makes for `left` bytes at an offset: one for each block that they touch.
abbrev pub rounds : ℕ → ℕ → ℕ
rounds left off = if left == 0 then 0 else (left + off % bsize + (bsize - 1)) / bsize

pub rounds_next :
    (left off : ℕ)
    → 0 < left
    → suc (rounds (left - min left (bsize - off % bsize)) (off + min left (bsize - off % bsize)))
      ≡ rounds left off
rounds_next left off more = ground (arith, more)

-- filewrite of kernel/file.c writes at most (MAXOPBLOCKS - 1 - 1 - 2) / 2 blocks of bytes in one transaction; then the ten
-- entries that begin_op keeps free are room enough.
pub filewrite-Room :
    (bmapstart iblock off n : ℕ) (ip : Inode) (log : Log)
    → Open log
    → log.n + maxopblocks ≤ logblocks
    → n ≤ (maxopblocks - 1 - 1 - 2) / 2 * bsize
    → Room bmapstart iblock (rounds n off) ip log
filewrite-Room bmapstart iblock off n ip log o free few =
    let touched : rounds n off ≤ 4 = ground (arith, few) in
    let ind : missing_indirect ip log ≤ 1 = ground arith in
    record {
      still_open = o;
      room =
          omega (arith, free, touched, ind, missing_bound bmapstart log, missing_bound iblock log);
    }
