-- ===== src/Spin.antt =====
-- kernel/spinlock.c: a spin lock that the CPUs of the machine share, and the nesting of push_off and
-- pop_off on each CPU. An access to what the CPUs share is one step of one CPU, so that a sequence
-- of steps is an interleaving. The other spin locks of a CPU count as the push_off and the pop_off
-- that they make. noff, an int, is the number of the locks that a CPU holds, far below its bound.
pub mod Nesting
mod Invariant
pub mod Exclusion
mod Tests
use model_lib.Base.{
  ℕ, zero, suc, ◌+◌, ◌-◌, ◌≡◌, ◌≢◌, Bool, true, false, not, ◌&&◌, ◌==◌, ltb, if◌then◌else◌, Option,
  none, some, List, [], ◌∷◌, update,
}
use model_lib.Base.Outcome.{Outcome, done, panic, ◌>>=◌}

-- What `struct cpu` keeps for the nesting, and whether the CPU takes interrupts.
pub record Cpu : Type 0 where
  pub noff : ℕ
  pub intena : Bool
  pub interrupts : Bool

-- push_off()
pub push_off : Cpu → Cpu
push_off c = record {
  noff = c.noff + 1;
  intena = if c.noff == 0 then c.interrupts else c.intena;
  interrupts = false;
}

-- pop_off()
pub pop_off : Cpu → Outcome Cpu
pop_off c =
    if c.interrupts
    then panic "pop_off - interruptible"
    else if ltb c.noff 1
    then panic "pop_off"
    else done (record c {
      noff = c.noff - 1;
      interrupts = if (c.noff - 1 == 0) && c.intena then true else c.interrupts;
    })

-- Where a CPU is in acquire and release of the lock.
pub data Phase : Type 0 where
  outside : Phase
  spinning : Phase
  exchanged : Phase
  inside : Phase
  disowned : Phase
  unlocked : Phase

-- A CPU, with the number of the calls of push_off that its other locks have made and not undone.
pub record Core : Type 0 where
  pub cpu : Cpu
  pub phase : Phase
  pub others : ℕ

-- `struct spinlock`, with the CPU that holds it, and the CPUs.
pub record Spin : Type 0 where
  pub locked : Bool
  pub owner : Option ℕ
  pub cores : ℕ → Core

abbrev pub set_core : ℕ → Core → Spin → Spin
set_core i c s = record s { cores = update s.cores i c }

abbrev pub at : Phase → Core → Core
at p c = record c { phase = p }

abbrev pub owns : Option ℕ → ℕ → Bool
owns none i = false
owns (some j) i = j == i

-- holding(lk) on the CPU `i`.
pub holding : ℕ → Spin → Bool
holding i s = s.locked && owns s.owner i

-- acquire(lk), up to its loop.
pub acquire_start : ℕ → Spin → Outcome Spin
acquire_start i s =
    let c = s.cores i in
    let s1 = set_core i (record c { cpu = push_off c.cpu; phase = spinning }) s in
    if holding i s1 then panic "acquire" else done s1

-- The exchange of acquire: the CPU goes on if the lock was free, and tries again otherwise.
pub acquire_try : ℕ → Spin → Spin
acquire_try i s =
    if s.locked then s else set_core i (at exchanged (s.cores i)) (record s { locked = true })

-- The end of acquire.
pub acquire_end : ℕ → Spin → Spin
acquire_end i s = set_core i (at inside (s.cores i)) (record s { owner = some i })

-- release(lk), up to the store that frees the lock.
pub release_start : ℕ → Spin → Outcome Spin
release_start i s =
    if not (holding i s)
    then panic "release"
    else done (set_core i (at disowned (s.cores i)) (record s { owner = none }))

-- The store of release.
pub release_store : ℕ → Spin → Spin
release_store i s = set_core i (at unlocked (s.cores i)) (record s { locked = false })

-- The end of release.
pub release_end : ℕ → Spin → Outcome Spin
release_end i s =
    let c = s.cores i in
    pop_off c.cpu >>= λ u. done (set_core i (record c { cpu = u; phase = outside }) s)

-- acquire and release of another lock, as far as the nesting goes.
abbrev pub push_other : ℕ → Spin → Spin
push_other i s =
    let c = s.cores i in set_core i (record c { cpu = push_off c.cpu; others = c.others + 1 }) s

abbrev pub pop_other : ℕ → Spin → Outcome Spin
pop_other i s =
    let c = s.cores i in
    pop_off c.cpu >>= λ u. done (set_core i (record c { cpu = u; others = c.others - 1 }) s)

-- intr_on() and intr_off()
abbrev pub set_interrupts : ℕ → Bool → Spin → Spin
set_interrupts i b s =
    let c = s.cores i in set_core i (record c { cpu = record (c.cpu) { interrupts = b } }) s

-- A CPU that is not in the middle of acquire or release.
abbrev pub between : Phase → Bool
between outside = true
between inside = true
between spinning = false
between exchanged = false
between disowned = false
between unlocked = false

-- What a CPU can do next. A CPU releases only a lock that it has acquired, and changes its interrupt
-- flag by itself only while it holds no lock.
pub data Step (s : Spin) : Outcome Spin → Type 0 where
  acquires : (i : ℕ) → (s.cores i).phase ≡ outside → Step s (acquire_start i s)
  tries : (i : ℕ) → (s.cores i).phase ≡ spinning → Step s (done (acquire_try i s))
  takes : (i : ℕ) → (s.cores i).phase ≡ exchanged → Step s (done (acquire_end i s))
  releases : (i : ℕ) → (s.cores i).phase ≡ inside → Step s (release_start i s)
  stores : (i : ℕ) → (s.cores i).phase ≡ disowned → Step s (done (release_store i s))
  leaves : (i : ℕ) → (s.cores i).phase ≡ unlocked → Step s (release_end i s)
  pushes : (i : ℕ) → between (s.cores i).phase ≡ true → Step s (done (push_other i s))
  pops :
      (i : ℕ) → between (s.cores i).phase ≡ true → (s.cores i).others ≢ 0 → Step s (pop_other i s)
  switches : (i : ℕ) (b : Bool) → (s.cores i).cpu.noff ≡ 0 → Step s (done (set_interrupts i b s))

-- initlock(lk, name), before a CPU has taken any lock.
abbrev pub initlock : (ℕ → Bool) → Spin
initlock on = record {
  locked = false;
  owner = none;
  cores = λ i. record {
    cpu = record { noff = 0; intena = false; interrupts = on i };
    phase = outside;
    others = 0;
  };
}

-- The states that the CPUs can reach; `on` is whether they take interrupts at first.
pub data Reach (on : ℕ → Bool) : Spin → Type 0 where
  start : Reach on (initlock on)
  more : (s t : Spin) → Reach on s → Step s (done t) → Reach on t
