-- ===== src/Proc.antt =====
-- kernel/proc.h and kernel/proc.c: the process table. A call runs with the locks that it takes, so
-- it is one step here; what it asks of memory and files (kalloc, uvmcopy, copyout) comes in as the
-- results of those calls. Saved kernel contexts are not modelled.
pub mod Find
pub mod Wake
pub mod Alloc
pub mod Fork
pub mod Exit
pub mod Kill
pub mod Wait
pub mod Valid
pub mod System
mod Tests
use model_lib.Base.{
  ℕ, zero, suc, ◌+◌, ◌-◌, ◌^◌, Bool, true, false, not, ◌&&◌, ◌||◌, ltb, leb, ◌==◌, if◌then◌else◌,
  Option, none, some, List, [], ◌∷◌, update, replicate, map,
}
use model_lib.Base.Words.{u32, minus_one}
use model_lib.Base.Outcome.{Outcome, done, panic}

abbrev pub nproc : ℕ
nproc = 64

abbrev pub nofile : ℕ
nofile = 16

-- `enum procstate`
pub data ProcState : Type 0 where
  unused used sleeping runnable running zombie : ProcState

abbrev pub is_unused : ProcState → Bool
is_unused unused = true
is_unused _ = false

abbrev pub is_sleeping : ProcState → Bool
is_sleeping sleeping = true
is_sleeping _ = false

abbrev pub is_zombie : ProcState → Bool
is_zombie zombie = true
is_zombie _ = false

abbrev pub is_runnable : ProcState → Bool
is_runnable runnable = true
is_runnable _ = false

-- The user registers that system calls use; `rest` holds the others by number.
pub record Trapframe : Type 0 where
  pub a0 : ℕ
  pub a1 : ℕ
  pub a2 : ℕ
  pub a3 : ℕ
  pub a4 : ℕ
  pub a5 : ℕ
  pub a7 : ℕ
  pub rest : ℕ → ℕ

-- `struct proc`. A process is named by its index in the table, and a null pointer is `none` (for
-- `parent`, `cwd` and open files) or 0 (for addresses). `chan` is the address slept on.
pub record Proc : Type 0 where
  pub state : ProcState
  pub chan : ℕ
  pub killed : ℕ
  pub xstate : ℕ
  pub pid : ℕ
  pub parent : Option ℕ
  pub sz : ℕ
  pub pagetable : ℕ
  pub trapframe : ℕ
  pub regs : Trapframe
  pub ofile : ℕ → Option ℕ
  pub cwd : Option ℕ
  pub name : List ℕ
  pub tracing : ℕ

-- `proc[NPROC]`, `nextpid` and `initproc`
pub record Procs : Type 0 where
  pub table : ℕ → Proc
  pub nextpid : ℕ
  pub initproc : ℕ

abbrev pub set_proc : Procs → ℕ → Proc → Procs
set_proc s i p = record s { table = update s.table i p }

-- `p->parent == q`, for the process with index `q`.
abbrev pub is_parent : ℕ → Option ℕ → Bool
is_parent q none = false
is_parent q (some i) = i == q

-- The first of `n` entries from index `i` on that passes the test.
pub find_from : (Proc → Bool) → (ℕ → Proc) → ℕ → ℕ → Option ℕ
find_from test t zero i = none
find_from test t (suc n) i = if test (t i) then some i else find_from test t n (i + 1)

pub allocpid : Procs → ℕ × Procs
allocpid s = (s.nextpid, record s { nextpid = u32 (s.nextpid + 1) })

-- The pages and the page table that it frees are the caller's to account for.
pub freeproc : Proc → Proc
freeproc p = record p {
  trapframe = 0;
  pagetable = 0;
  sz = 0;
  pid = 0;
  parent = none;
  name = [];
  chan = 0;
  killed = 0;
  xstate = 0;
  state = unused;
  tracing = 0;
}

-- From `found:` on, with the results of kalloc() and proc_pagetable(), 0 for a failure.
pub allocproc_found : ℕ → ℕ → ℕ → Procs → Option ℕ × Procs
allocproc_found tf pt i s =
    let (pid, s1) = allocpid s in
    let p = record (s1.table i) { pid = pid; state = used; trapframe = tf } in
    if tf == 0
    then (none, set_proc s1 i (freeproc p))
    else if pt == 0
    then (none, set_proc s1 i (freeproc (record p { pagetable = pt })))
    else (some i, set_proc s1 i (record p { pagetable = pt; tracing = 0 }))

pub allocproc : ℕ → ℕ → Procs → Option ℕ × Procs
allocproc tf pt s = elim (find_from (λ p. is_unused p.state) s.table nproc 0) [
  | none ↦ (none, s)
  | some i ↦ allocproc_found tf pt i s
]

-- What kfork gets from memory: a trapframe page and a page table (0 if there is none), and
-- whether uvmcopy() succeeded.
pub record ForkMemory : Type 0 where
  pub trapframe : ℕ
  pub pagetable : ℕ
  pub copied : Bool

-- `kfork` once allocproc has returned entry `i`, in the process with index `cur`. The child's open
-- files and directory are the parent's; counting the references is the file layer's part.
pub kfork_found : ForkMemory → ℕ → ℕ → Procs → ℕ × Procs
kfork_found m cur i s =
    let p = s.table cur in
    let np = s.table i in
    if not m.copied then (minus_one, set_proc s i (freeproc np)) else (
      np.pid,
      set_proc s i (record np {
        sz = p.sz;
        regs = record (p.regs) { a0 = 0 };
        ofile = λ fd. elim (p.ofile fd) [ some f ↦ some f | none ↦ np.ofile fd ];
        cwd = p.cwd;
        name = p.name;
        tracing = p.tracing;
        parent = some cur;
        state = runnable;
      }),
    )

-- `kfork` from the return of allocproc on.
abbrev pub kfork_after : ForkMemory → ℕ → Option ℕ × Procs → ℕ × Procs
kfork_after m cur (none, s) = (minus_one, s)
kfork_after m cur (some i, s) = kfork_found m cur i s

pub kfork : ForkMemory → ℕ → Procs → ℕ × Procs
kfork m cur s = kfork_after m cur (allocproc m.trapframe m.pagetable s)

-- wakeup(chan): each entry is looked at by itself, but the caller's own.
abbrev pub wake : ℕ → Proc → Proc
wake chan p = if is_sleeping p.state && p.chan == chan then record p { state = runnable } else p

pub wakeup : ℕ → ℕ → Procs → Procs
wakeup cur chan s = record s {
  table = λ i. if ltb i nproc && not (i == cur) then wake chan (s.table i) else s.table i;
}

abbrev pub close_files : Proc → Proc
close_files p = record p { ofile = λ fd. if ltb fd nofile then none else p.ofile fd; cwd = none }

-- The address of proc[i] is the channel of wait(); the linker places the table.
module _ (addr : ℕ → ℕ) where
  abbrev pub addr_of : Option ℕ → ℕ
  addr_of none = 0
  addr_of (some i) = addr i

  -- One round of the loop of reparent(proc[p]), at entry `i`, in process `cur`.
  pub adopt : ℕ → ℕ → ℕ → Procs → Procs
  adopt cur p i s =
      if is_parent p (s.table i).parent
      then wakeup cur (addr s.initproc)
          (set_proc s i (record (s.table i) { parent = some s.initproc }))
      else s

  pub reparent_loop : ℕ → ℕ → ℕ → ℕ → Procs → Procs
  reparent_loop zero i cur p s = s
  reparent_loop (suc n) i cur p s = reparent_loop n (i + 1) cur p (adopt cur p i s)

  pub reparent : ℕ → ℕ → Procs → Procs
  reparent cur p s = reparent_loop nproc 0 cur p s

  -- What kexit does to the table once the files are closed.
  pub exit_closed : ℕ → ℕ → Procs → Procs
  exit_closed cur status s =
      let s1 = reparent cur cur s in
      let s2 = wakeup cur (addr_of (s1.table cur).parent) s1 in
      set_proc s2 cur (record (s2.table cur) { xstate = status; state = zombie })

  -- kexit, up to the jump into the scheduler. Dropping the references to the files and to the
  -- directory is the file layer's part.
  pub kexit : ℕ → ℕ → Procs → Outcome Procs
  kexit cur status s =
      if cur == s.initproc
      then panic "init exiting"
      else done (exit_closed cur status (set_proc s cur (close_files (s.table cur))))

-- What one pass of kwait's loop finds among its own children.
pub data WaitScan : Type 0 where
  reap : ℕ → WaitScan
  waiting : (havekids : Bool) → WaitScan

pub scan_children : ℕ → (ℕ → Proc) → ℕ → ℕ → Bool → WaitScan
scan_children cur t zero i havekids = waiting havekids
scan_children cur t (suc n) i havekids =
    let mine = is_parent cur (t i).parent in
    if mine && is_zombie (t i).state
    then reap i
    else scan_children cur t n (i + 1) (havekids || mine)

pub data WaitResult : Type 0 where
  returned : ℕ → Procs → WaitResult
  sleeps : WaitResult

-- One pass: it returns, or goes to sleep on its own entry, and looks again when awakened.
-- `copied` says whether copyout() of the status to a non-null address succeeds.
pub kwait_pass : ℕ → ℕ → Bool → Procs → WaitResult
kwait_pass cur address copied s = elim (scan_children cur s.table nproc 0 false) [
  | reap i ↦
      if not (address == 0) && not copied
      then returned minus_one s
      else returned (s.table i).pid (set_proc s i (freeproc (s.table i)))
  | waiting havekids ↦
      if not havekids || not ((s.table cur).killed == 0) then returned minus_one s else sleeps
]

-- sleep(chan, lk), up to the call of sched(), and from its return on.
pub sleep_on : ℕ → ℕ → Procs → Procs
sleep_on cur chan s = set_proc s cur (record (s.table cur) { chan = chan; state = sleeping })

pub awakened : ℕ → Procs → Procs
awakened cur s = set_proc s cur (record (s.table cur) { chan = 0 })

-- yield(), up to the call of sched().
pub yield : ℕ → Procs → Procs
yield cur s = set_proc s cur (record (s.table cur) { state = runnable })

pub kkill_found : ℕ → Procs → Procs
kkill_found i s =
    let p = record (s.table i) { killed = 1 } in
    set_proc s i (if is_sleeping p.state then record p { state = runnable } else p)

pub kkill : ℕ → Procs → ℕ × Procs
kkill pid s = elim (find_from (λ p. p.pid == pid) s.table nproc 0) [
  | none ↦ (minus_one, s)
  | some i ↦ (0, kkill_found i s)
]

pub setkilled : ℕ → Procs → Procs
setkilled i s = set_proc s i (record (s.table i) { killed = 1 })

pub is_killed : ℕ → Procs → ℕ
is_killed i s = (s.table i).killed

-- The entry that the scheduler runs next when its loop stands at entry `i`, and its dispatch.
pub scheduler_pick : ℕ → Procs → Option ℕ
scheduler_pick i s = find_from (λ p. is_runnable p.state) s.table (nproc - i) i

pub scheduler_run : ℕ → Procs → Procs
scheduler_run i s = set_proc s i (record (s.table i) { state = running })

-- A zeroed entry, as procinit leaves it.
abbrev pub empty_proc : Proc
empty_proc = record {
  state = unused;
  chan = 0;
  killed = 0;
  xstate = 0;
  pid = 0;
  parent = none;
  sz = 0;
  pagetable = 0;
  trapframe = 0;
  regs = record { a0 = 0; a1 = 0; a2 = 0; a3 = 0; a4 = 0; a5 = 0; a7 = 0; rest = λ _. 0 };
  ofile = λ _. none;
  cwd = none;
  name = [];
  tracing = 0;
}

pub procinit : Procs
procinit = record { table = λ _. empty_proc; nextpid = 1; initproc = 0 }

-- userinit, with the results of allocproc's calls and of namei("/"); `none` is the use of a null
-- pointer when allocproc fails.
pub userinit : ℕ → ℕ → ℕ → Procs → Option Procs
userinit tf pt root s =
    let (found, s1) = allocproc tf pt s in
    elim found [
      | none ↦ none
      | some i ↦
          some (record (set_proc s1 i (record (s1.table i) { cwd = some root; state = runnable })) {
            initproc = i;
          })
    ]
