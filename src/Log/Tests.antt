-- ===== src/Log/Tests.antt =====
-- The log at concrete states: a transaction of one block, a crash in its middle, and the turns of
-- the system calls.
use model_lib.Base.{
  ℕ, ◌+◌, ◌<◌, ◌≡◌, ◌⊎◌, inr, arith, refl, true, if◌then◌else◌, List, [], ◌∷◌, get_or, update,
  replicate, subst, sym, some, none,
}
use model_lib.Base.Outcome.{done}
use model_lib.Log.{
  Log, Block, replay, disk, buf, commit, initlog, booting, begin_op, end_op_start, end_op_commit,
  log_write,
}
use model_lib.Log.Writes.{Outside, listed, installs, logs, Earlier, now, before}
use model_lib.Log.Commit.{Fits, contents, commit-writes}
use model_lib.Log.Recovery.{Saved}
use model_lib.Log.Crash.{SameOutside, commit-disk, commit-atomic}
use model_lib.Log.Restart.{fresh, crashed, recovery-restart}
use model_lib.Log.Space.{
  begins, ends, Reach, boots, steps, log_write-succeeds, end_op_start-succeeds, begin_op-admits,
}

-- A disk of zeros with a log at block 2, and a transaction with new contents for block 40.
abbrev zeros : ℕ → Block
zeros b = replicate 40 0

abbrev one_block : Log
one_block = record (booting zeros 2) {
  cache = update (λ _. none) 40 (some (7 ∷ []));
  n = 1;
  block = 40 ∷ [];
}

only_zero : (P : ℕ → Type 0) → P 0 → (j : ℕ) → j < 1 → P j
only_zero P zero_holds j h = subst P (let e : 0 ≡ j = omega arith in e) zero_holds

one_block-Fits : Fits one_block
unfolding buf disk replay
one_block-Fits = record {
  small = omega arith;
  out = only_zero (λ j. Outside 2 (get_or (40 ∷ []) j 0)) (inr (omega arith));
  room = omega arith;
}

one_block-empty : get_or (disk one_block 2) 0 0 ≡ 0
unfolding disk replay
one_block-empty = refl

commit-disk_example :
    ((b : ℕ)
      → Outside 2 b
      → disk (commit one_block) b ≡ (
          if listed (contents one_block) (40 ∷ []) 1 0 b
          then buf b one_block
          else disk one_block b))
    × (get_or (disk (commit one_block) 2) 0 0 ≡ 0)
commit-disk_example = commit-disk one_block one_block-Fits one_block-empty (omega arith)

-- The crash comes when the block is in the log, and the header is not.
abbrev first_write : List (ℕ × Block)
first_write = (3, 7 ∷ []) ∷ []

first_write-Earlier : Earlier first_write (commit one_block).written
unfolding installs logs buf
first_write-Earlier =
    subst (Earlier first_write) (sym (commit-writes one_block one_block-Fits (omega arith)))
      (before (before (before now)))

commit-atomic_example :
    SameOutside 2 (disk (initlog (replay zeros first_write) 2)) (disk one_block)
    ⊎ SameOutside 2 (disk (initlog (replay zeros first_write) 2)) (disk (commit one_block))
commit-atomic_example =
    commit-atomic one_block one_block-Fits one_block-empty (omega arith) first_write (before now)
      first_write-Earlier

-- A disk with a complete log of one block.
abbrev logged_disk : ℕ → Block
logged_disk = update (update zeros 2 (1 ∷ 40 ∷ [])) 3 (7 ∷ [])

abbrev sevens : ℕ → Block
sevens b = 7 ∷ []

logged_disk-Saved : Saved sevens 2 1 (40 ∷ []) logged_disk
logged_disk-Saved = record {
  count = refl;
  entries = only_zero (λ j. get_or (logged_disk 2) (j + 1) 0 ≡ get_or (40 ∷ []) j 0) refl;
  contents = λ j h. ground arith;
}

recovery-restart_example :
    disk (initlog (replay logged_disk (initlog logged_disk 2).written) 2) 40
    ≡ (if listed sevens (40 ∷ []) 1 0 40 then 7 ∷ [] else logged_disk 40)
recovery-restart_example =
    recovery-restart sevens 2 1 (40 ∷ []) logged_disk (omega arith)
      (only_zero (λ j. Outside 2 (get_or (40 ∷ []) j 0)) (inr (omega arith)))
      (replay logged_disk (initlog logged_disk 2).written) logged_disk-Saved (omega arith)
      (crashed _ fresh now) 40 (inr (omega arith))

abbrev idle : Log
idle = booting zeros 2

abbrev begun : Log
begun = record idle { outstanding = 1 }

begun-Reach : Reach (begun, 10 ∷ [])
unfolding begin_op
begun-Reach = steps (boots refl refl refl) (begins refl)

log_write-succeeds_example : (t : Log) × (log_write 40 begun ≡ done t)
log_write-succeeds_example = log_write-succeeds begun [] [] 9 40 begun-Reach

end_op_start-succeeds_example : (t : Log) × (end_op_start begun ≡ done (true, t))
end_op_start-succeeds_example = end_op_start-succeeds begun [] [] 10 begun-Reach

abbrev last_ended : Log
last_ended = record begun { outstanding = 0; committing = true }

last_ended-Reach : Reach (last_ended, [])
unfolding end_op_start
last_ended-Reach = steps begun-Reach (ends [] 10 [] refl)

begin_op-admits_example : (t : Log) × (begin_op (end_op_commit last_ended) ≡ some t)
begin_op-admits_example = begin_op-admits last_ended last_ended-Reach
