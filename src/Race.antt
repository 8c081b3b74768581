-- ===== src/Race.antt =====
-- kernel/race.c: the counter that several processes increment, with and without the spin lock.
-- A thread is inside race_increment. A step is one access of a thread to what the threads share, so
-- that a schedule, the list of the threads that take the steps, is an interleaving. The delay loops and the
-- yield between the accesses change nothing that is shared.
pub mod Locked
pub mod Steps
mod Tests
use model_lib.Base.{
  ℕ, ◌+◌, ◌-◌, Bool, true, false, ◌==◌, if◌then◌else◌, Option, none, some, List, [], ◌∷◌, update,
}
use model_lib.Base.Words.{u32}

-- Where a thread is in an iteration, with what it has read into a register.
pub data Pc : Type 0 where
  head : Pc
  entered : Pc
  has_temp : ℕ → Pc
  stored : Pc
  has_total : ℕ → Pc
  leaving : Pc

pub record Thread : Type 0 where
  pub left : ℕ
  pub use_lock : Bool
  pub pc : Pc

-- `struct shared_resource`, with the thread that holds its lock, and the threads.
pub record Race : Type 0 where
  pub holder : Option ℕ
  pub counter : ℕ
  pub total_ops : ℕ
  pub threads : ℕ → Thread

abbrev pub at : Pc → Thread → Thread
at pc p = record p { pc = pc }

-- The end of an iteration.
abbrev pub next : Thread → Thread
next p = record p { left = p.left - 1; pc = head }

abbrev pub set_thread : ℕ → Thread → Race → Race
set_thread t p s = record s { threads = update s.threads t p }

-- acquire(&shared_res.lock): a thread that finds the lock held tries again later.
pub try_acquire : ℕ → Thread → Race → Race
try_acquire t p s = elim s.holder [
  | none ↦ set_thread t (at entered p) (record s { holder = some t })
  | some h ↦ s
]

-- The next access of the thread `t`, which is `p` and is at `pc`.
pub step_at : ℕ → Thread → Pc → Race → Race
step_at t p head s =
    if p.left == 0
    then s
    else if p.use_lock
    then try_acquire t p s
    else set_thread t (at (has_temp s.counter) p) s
step_at t p entered s = set_thread t (at (has_temp s.counter) p) s
step_at t p (has_temp temp) s = set_thread t (at stored p) (record s { counter = u32 (temp + 1) })
step_at t p stored s = set_thread t (at (has_total s.total_ops) p) s
step_at t p (has_total n) s =
    set_thread t (if p.use_lock then at leaving p else next p)
      (record s { total_ops = u32 (n + 1) })
step_at t p leaving s = set_thread t (next p) (record s { holder = none })

pub step : ℕ → Race → Race
step t s = step_at t (s.threads t) (s.threads t).pc s

pub run : List ℕ → Race → Race
run [] s = s
run (t ∷ ts) s = run ts (step t s)

-- race_reset, which runs under the lock.
pub race_reset : Race → Race
race_reset s = record s { counter = 0; total_ops = 0 }
