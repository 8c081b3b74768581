-- ===== src/Syscall/Handlers.antt =====
-- The handlers of kernel/sysproc.c and growproc of kernel/proc.c. What they ask of memory
-- (uvmalloc, uvmcopy, copyout) comes in as the results of those calls; the handlers of
-- kernel/sysfile.c and kernel/race.c are a parameter of the table.
pub mod Traced
pub mod Sbrk
use model_lib.Base.{
  ℕ, ◌+◌, ◌-◌, ◌^◌, Bool, true, false, not, ◌&&◌, ◌||◌, ltb, leb, ◌==◌, if◌then◌else◌, Option, none,
  some,
}
use model_lib.Base.Words.{u32, u64, minus_one, minus_one_64, sign_extend, is_negative}
use model_lib.Base.Outcome.{Outcome, done, panic, no_fuel}
use model_lib.Layout.{trapframe}
use model_lib.Proc.{
  Proc, Procs, ForkMemory, kfork, kexit, kwait_pass, returned, sleeps, kkill, sleep_on, set_proc,
}
use model_lib.Syscall.{
  Kernel, Ended, returns, no_return, blocks, panics, Handlers, exiting, print, proc_of, set_of,
  wants_trace, sys_exit_number, argint, argraw,
}

-- The results of the calls into memory management that a system call makes.
pub record Memory : Type 0 where
  pub fork : ForkMemory
  pub copied : Bool  -- copyout() of a status
  pub grown : Bool  -- uvmalloc() to a larger size

abbrev pub sbrk_eager : ℕ
sbrk_eager = 1

-- The line that sys_exit prints before the process ends.
pub exit_line : ℕ → Kernel → Kernel
exit_line cur k =
    if wants_trace (proc_of cur k).tracing sys_exit_number
    then print (exiting (proc_of cur k).pid (argint 0 cur k)) k
    else k

-- kexit does not return.
abbrev pub exit_from : Kernel → Outcome Procs → Ended
exit_from k (done t) = no_return (record k { procs = t })
exit_from k (panic w) = panics w
exit_from k no_fuel = panics ""

-- The address of `ticks`, as a channel, and of the entries of the process table.
module _ (addr : ℕ → ℕ) (ticks_addr : ℕ) (memory : Memory) where
  abbrev with_procs : Kernel → ℕ × Procs → Ended
  with_procs k (v, t) = returns (sign_extend v) (record k { procs = t })

  pub sys_exit : ℕ → Kernel → Ended
  sys_exit cur k =
      let k' = exit_line cur k in exit_from k' (kexit addr cur (argint 0 cur k) k'.procs)

  pub sys_getpid : ℕ → Kernel → Ended
  sys_getpid cur k = returns (proc_of cur k).pid k

  pub sys_fork : ℕ → Kernel → Ended
  sys_fork cur k = with_procs k (kfork memory.fork cur k.procs)

  -- Up to the first sleep.
  pub sys_wait : ℕ → Kernel → Ended
  sys_wait cur k = elim (kwait_pass cur (argraw 0 (proc_of cur k).regs) memory.copied k.procs) [
    | returned v t ↦ with_procs k (v, t)
    | sleeps ↦ blocks (record k { procs = sleep_on cur (addr cur) k.procs })
  ]

  -- uvmdealloc's result, the new size of the process.
  abbrev pub uvmdealloc_size : ℕ → ℕ → ℕ
  uvmdealloc_size oldsz newsz = if leb oldsz newsz then oldsz else newsz

  -- `growproc(n)`, for the bit pattern of `n`; `none` is -1.
  unfoldable pub growproc : ℕ → ℕ → Option ℕ
  growproc n sz =
      if n == 0
      then some sz
      else if is_negative n
      then some (uvmdealloc_size sz (u64 (sz + sign_extend n)))
      else if ltb trapframe (u64 (sz + n))
      then none
      else if ltb (u64 (sz + n)) sz
      then some sz
      else if memory.grown
      then some (u64 (sz + n))
      else none

  -- The size that sys_sbrk leaves the process with, `none` if it returns -1.
  unfoldable pub sbrk_size : ℕ → ℕ → ℕ → Option ℕ
  sbrk_size n t sz =
      if t == sbrk_eager || is_negative n
      then growproc n sz
      else if ltb (u64 (sz + n)) sz
      then none
      else if ltb trapframe (u64 (sz + n))
      then none
      else some (u64 (sz + n))

  pub sys_sbrk : ℕ → Kernel → Ended
  sys_sbrk cur k =
      let p = proc_of cur k in
      elim (sbrk_size (argint 0 cur k) (argint 1 cur k) p.sz) [
        | none ↦ returns minus_one_64 k
        | some sz ↦ returns p.sz (set_of cur (record p { sz = sz }) k)
      ]

  -- One test of the loop of sys_pause, for `n` ticks from `ticks0` on.
  pub pause_pass : ℕ → ℕ → ℕ → Kernel → Ended
  pause_pass cur ticks0 n k =
      if ltb (u32 (k.ticks + 2 ^ 32 - ticks0)) n
      then if not ((proc_of cur k).killed == 0)
        then returns minus_one_64 k
        else blocks (record k { procs = sleep_on cur ticks_addr k.procs })
      else returns 0 k

  pub sys_pause : ℕ → Kernel → Ended
  sys_pause cur k =
      let n = argint 0 cur k in pause_pass cur k.ticks (if is_negative n then 0 else n) k

  pub sys_kill : ℕ → Kernel → Ended
  sys_kill cur k = with_procs k (kkill (argint 0 cur k) k.procs)

  pub sys_uptime : ℕ → Kernel → Ended
  sys_uptime cur k = returns k.ticks k

  pub sys_trace : ℕ → Kernel → Ended
  sys_trace cur k = returns 0 (set_of cur (record (proc_of cur k) { tracing = argint 0 cur k }) k)

  -- `syscalls[num]`, with the handlers of the other files.
  pub syscall_table : Handlers → Handlers
  syscall_table others num cur k =
      if num == 1
      then sys_fork cur k
      else if num == 2
      then sys_exit cur k
      else if num == 3
      then sys_wait cur k
      else if num == 6
      then sys_kill cur k
      else if num == 11
      then sys_getpid cur k
      else if num == 12
      then sys_sbrk cur k
      else if num == 13
      then sys_pause cur k
      else if num == 14
      then sys_uptime cur k
      else if num == 23
      then sys_trace cur k
      else others num cur k
