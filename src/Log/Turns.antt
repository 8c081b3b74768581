-- ===== src/Log/Turns.antt =====
-- What begin_op, log_write and end_op of kernel/log.c leave of the log's counts.
use model_lib.Base.{
  ℕ, zero, suc, ◌+◌, ◌-◌, ◌*◌, ◌≤◌, ◌<◌, ◌≡◌, inl, inr, arith, refl, ◌==◌, Bool, true, false,
  if◌then◌else◌, ◌∙◌, set, Bool-cases, some,
}
use native.Mathlib.Decide.{dec_lt}
use model_lib.Base.Outcome.{done}
use model_lib.Log.{
  Log, commit, begin_op, end_op_start, end_op_commit, log_write, find_entry, bpin, bwrite, store,
  bread, bunpin, log_from, log_one, install_from, install_one, install_trans, write_head, write_log,
  clear_n,
}

pub begin_op-some :
    (s t : Log)
    → begin_op s ≡ some t
    → (s.committing ≡ false)
      × (s.n + (s.outstanding + 1) * 10 ≤ 30)
      × (t ≡ record s { outstanding = s.outstanding + 1 })
unfolding begin_op
begin_op-some s t e = elim (Bool-cases s.committing) [
  | inl busy ↦ absurd (ground (arith, busy, e))
  | inr free ↦ elim (dec_lt 30 (s.n + (s.outstanding + 1) * 10)) [
    | yes full ↦ absurd (ground (arith, free, e))
    | no fits ↦ (free, omega arith, ground (arith, free, e))
  ]
]

module _ (b : ℕ) (s : Log) (space : s.n < 30) (inside : 0 < s.outstanding)
    (few : s.outstanding ≤ 3) where
  -- The log after log_write.
  abbrev pub entered : Log
  entered =
      let i = find_entry s.n 0 b s.block in
      let s1 = record s { block = set s.block i b } in
      if i == s.n then record (bpin b s1) { n = s.n + 1 } else s1

  pub log_write-entered : log_write b s ≡ done entered
  unfolding log_write
  log_write-entered = ground arith

  pub entered-n : entered.n ≤ s.n + 1
  unfolding bpin
  entered-n = ground arith

  pub entered-outstanding :
      (entered.outstanding ≡ s.outstanding) × (entered.committing ≡ s.committing)
  unfolding bpin
  entered-outstanding = ground arith

module _ (s : Log) (inside : 0 < s.outstanding) (few : s.outstanding ≤ 3) where
  -- The state after end_op has taken the system call off.
  abbrev pub ended : Log
  ended =
      if s.outstanding == 1
      then record s { outstanding = 0; committing = true }
      else record s { outstanding = s.outstanding - 1 }

  pub end_op_start-ended : s.committing ≡ false → end_op_start s ≡ done (s.outstanding == 1, ended)
  unfolding end_op_start
  end_op_start-ended free = ground arith

  pub ended-n : ended.n ≡ s.n
  ended-n = ground arith

  pub ended-outstanding :
      (ended.outstanding + 1 ≡ s.outstanding)
      × (ended.committing ≡ (if s.outstanding == 1 then true else s.committing))
  ended-outstanding = ground arith

outstanding-log_from : (k tail : ℕ) (s : Log) → (log_from k tail s).outstanding ≡ s.outstanding
unfolding log_from log_one bread bwrite store
outstanding-log_from zero tail s = refl
outstanding-log_from (suc k) tail s = outstanding-log_from k (tail + 1) (log_one tail s)

outstanding-install_one :
    (recovering : Bool) (tail : ℕ) (s : Log)
    → (install_one recovering tail s).outstanding ≡ s.outstanding
unfolding install_one bread bwrite store bunpin
outstanding-install_one true tail s = refl
outstanding-install_one false tail s = refl

outstanding-install_from :
    (recovering : Bool) (k tail : ℕ) (s : Log)
    → (install_from recovering k tail s).outstanding ≡ s.outstanding
unfolding install_from
outstanding-install_from recovering zero tail s = refl
outstanding-install_from recovering (suc k) tail s =
    outstanding-install_from recovering k (tail + 1) (install_one recovering tail s)
    ∙ outstanding-install_one recovering tail s

abbrev written_head : Log → Log
written_head s = write_head (write_log s)

outstanding-write_head : (s : Log) → (write_head s).outstanding ≡ s.outstanding
unfolding write_head bread bwrite store
outstanding-write_head s = refl

n-write_head : (s : Log) → (write_head s).n ≡ s.n
unfolding write_head bread bwrite store
n-write_head s = refl

outstanding-commit : (s : Log) → (commit s).outstanding ≡ s.outstanding
unfolding commit install_trans write_log
outstanding-commit s =
    let headed = written_head s in
    let done_all = install_trans false headed in
    ground (
      arith,
      outstanding-write_head (clear_n done_all),
      outstanding-install_from false headed.n 0 headed,
      outstanding-write_head (write_log s),
      outstanding-log_from s.n 0 s,
    )

n-commit : (s : Log) → (commit s).n ≡ 0
unfolding commit
n-commit s = ground (arith, n-write_head (clear_n (install_trans false (written_head s))))

-- After the commit the log is free and has no entries.
pub end_op_commit-free :
    (s : Log)
    → ((end_op_commit s).n ≡ 0)
      × ((end_op_commit s).outstanding ≡ s.outstanding)
      × ((end_op_commit s).committing ≡ false)
unfolding end_op_commit
end_op_commit-free s = (n-commit s, outstanding-commit s, refl)
