-- ===== src/Syscall.antt =====
-- kernel/syscall.c and kernel/sysproc.c: system calls, and the tracing of system calls.
pub mod Handlers
pub mod Trace
mod Tests
use Prim.Native.Nat.{bit_and}
use Prim.Native.String.{String}
use model_lib.Base.{
  ℕ, zero, suc, ◌+◌, ◌-◌, ◌*◌, ◌^◌, Bool, true, false, not, ◌&&◌, ◌||◌, ltb, leb, ◌==◌,
  if◌then◌else◌, Option, none, some, List, [], ◌∷◌, ◌++◌, length, get_or,
}
use model_lib.Base.Words.{u32, minus_one_64, sign_extend}
use model_lib.Proc.{Proc, Procs, Trapframe, set_proc}

-- What printk is called with by the code of these files.
pub data Line : Type 0 where
  traced : (pid : ℕ) (name : String) (result : ℕ) → Line
  exiting : (pid status : ℕ) → Line
  unknown : (pid : ℕ) (name : List ℕ) (num : ℕ) → Line

-- The state that these system calls work on. The console holds the lines, the latest first.
pub record Kernel : Type 0 where
  pub procs : Procs
  pub ticks : ℕ
  pub console : List Line

abbrev pub print : Line → Kernel → Kernel
print l k = record k { console = l ∷ k.console }

abbrev pub proc_of : ℕ → Kernel → Proc
proc_of cur k = k.procs.table cur

abbrev pub set_of : ℕ → Proc → Kernel → Kernel
set_of cur p k = record k { procs = set_proc k.procs cur p }

-- How a handler ends: it returns a value, it ends the process, it goes to sleep, or it stops the
-- machine.
pub data Ended : Type 0 where
  returns : ℕ → Kernel → Ended
  no_return : Kernel → Ended
  blocks : Kernel → Ended
  panics : String → Ended

-- kernel/syscall.h, in the order of the numbers from 1 on; there is no number 0.
abbrev pub syscallnames : List String
syscallnames =
    "" ∷ "fork" ∷ "exit" ∷ "wait" ∷ "pipe" ∷ "read" ∷ "kill" ∷ "exec" ∷ "fstat" ∷ "chdir" ∷ "dup"
    ∷ "getpid" ∷ "sbrk" ∷ "pause" ∷ "uptime" ∷ "open" ∷ "write" ∷ "mknod" ∷ "unlink" ∷ "link"
    ∷ "mkdir" ∷ "close" ∷ "sync" ∷ "trace" ∷ "race_inc" ∷ "race_get" ∷ "race_reset" ∷ []

abbrev pub sys_exit_number : ℕ
sys_exit_number = 2

-- `num > 0 && num < NELEM(syscalls) && syscalls[num]`: every entry above 0 is filled.
abbrev pub is_known : ℕ → Bool
is_known num = ltb 0 num && ltb num (2 ^ 31) && ltb num (length syscallnames)

-- `tracing == 1 || (tracing & (1 << num))`
abbrev pub wants_trace : ℕ → ℕ → Bool
wants_trace tracing num = tracing == 1 || not (bit_and tracing (2 ^ num) == 0)

-- `argraw(n)`; any other number panics there, and is not asked for.
abbrev pub argraw : ℕ → Trapframe → ℕ
argraw zero r = r.a0
argraw (suc zero) r = r.a1
argraw (suc (suc zero)) r = r.a2
argraw (suc (suc (suc zero))) r = r.a3
argraw (suc (suc (suc (suc zero)))) r = r.a4
argraw (suc (suc (suc (suc (suc n))))) r = r.a5

abbrev pub argint : ℕ → ℕ → Kernel → ℕ
argint n cur k = u32 (argraw n (proc_of cur k).regs)

abbrev pub set_a0 : ℕ → ℕ → Kernel → Kernel
set_a0 cur v k =
    set_of cur (record (proc_of cur k) { regs = record ((proc_of cur k).regs) { a0 = v } }) k

-- The table of handlers, by number and for the process that calls.
abbrev pub Handlers : Type 0
Handlers = ℕ → ℕ → Kernel → Ended

-- `syscall`, from the return of the handler on.
pub after_handler : ℕ → ℕ → ℕ → Kernel → Kernel
after_handler cur num v k =
    let k' = set_a0 cur v k in
    let p = proc_of cur k' in
    if not (num == sys_exit_number) && wants_trace p.tracing num
    then print (traced p.pid (get_or syscallnames num "") p.regs.a0) k'
    else k'

pub syscall : Handlers → ℕ → Kernel → Ended
syscall handlers cur k =
    let p = proc_of cur k in
    let num = u32 p.regs.a7 in
    if is_known num
    then elim (handlers num cur k) [
      | returns v k' ↦ returns v (after_handler cur num v k')
      | no_return k' ↦ no_return k'
      | blocks k' ↦ blocks k'
      | panics w ↦ panics w
    ]
    else returns minus_one_64 (set_a0 cur minus_one_64 (print (unknown p.pid p.name num) k))
