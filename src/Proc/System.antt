-- ===== src/Proc/System.antt =====
-- The process table under any sequence of the calls of kernel/proc.c, by any of its processes.
use model_lib.Base.{
  ℕ, ◌+◌, ◌^◌, ◌<◌, ◌≡◌, Bool, true, some, arith, refl, subst, sym, update, inl, inr,
}
use native.Mathlib.Decide.{ℕ_discrete}
use model_lib.Base.Outcome.{done}
use model_lib.Proc.{
  Procs, ForkMemory, is_runnable, nproc, kfork, kexit, kwait_pass, returned, used, runnable, kkill,
  wakeup, sleep_on, awakened, yield, setkilled, scheduler_run, running, procinit, userinit,
  allocproc, allocproc_found, allocpid, find_from, set_proc, freeproc, empty_proc,
}
use model_lib.Proc.Valid.{IsValid, SameId-IsValid, Changes-set_proc, Changes-IsValid}
use model_lib.Proc.Wake.{wakeup-SameId, wakeup-same}
use model_lib.Proc.Fork.{kfork-IsValid}
use model_lib.Proc.Exit.{kexit-Exited, Exited-IsValid}
use model_lib.Proc.Wait.{kwait_pass-IsValid}
use model_lib.Proc.Kill.{KillCase, no_such, killed_first, kkill-KillCase}

module _ (addr : ℕ → ℕ) where
  -- One call, by the process with index `cur` where there is one, or one act of the scheduler.
  pub data Step (s : Procs) : Procs → Type 0 where
    fork :
        (m : ForkMemory) (cur : ℕ)
        → cur < nproc
        → (s.table cur).state ≡ running
        → s.nextpid + 1 < 2 ^ 32
        → Step s (kfork m cur s).1
    exit :
        {t : Procs} (cur status : ℕ)
        → cur < nproc
        → (s.table cur).state ≡ running
        → kexit addr cur status s ≡ done t
        → Step s t
    wait :
        {t : Procs} (cur address pid : ℕ) (copied : Bool)
        → kwait_pass cur address copied s ≡ returned pid t
        → Step s t
    kill : (pid : ℕ) → Step s (kkill pid s).1
    wake : (cur chan : ℕ) → Step s (wakeup cur chan s)
    sleep : (cur chan : ℕ) → (s.table cur).state ≡ running → Step s (sleep_on cur chan s)
    resume : (cur : ℕ) → Step s (awakened cur s)
    give_up : (cur : ℕ) → (s.table cur).state ≡ running → Step s (yield cur s)
    mark : (i : ℕ) → Step s (setkilled i s)
    run : (i : ℕ) → is_runnable (s.table i).state ≡ true → Step s (scheduler_run i s)

  pub data Reach (s : Procs) : Procs → Type 0 where
    here : Reach s s
    next : {t u : Procs} → Reach s t → Step t u → Reach s u

  -- Every step keeps the table well-formed.
  Step-IsValid : {s t : Procs} → Step s t → IsValid s → IsValid t
  unfolding sleep_on awakened yield setkilled scheduler_run
  Step-IsValid {s} (fork m cur h runs small) v = kfork-IsValid m cur s v h (ground arith) small
  Step-IsValid {s} (exit {t} cur status h runs e) v = elim (kexit-Exited addr cur status s h) [
    | inl (_, stopped) ↦ cc
    | inr (ne, (u, e', x, _)) ↦
        subst IsValid (let same : u ≡ t = cc in same)
          (Exited-IsValid addr cur status s u ne h (ground arith) x v)
  ]
  Step-IsValid {s} (wait cur address pid copied e) v =
      kwait_pass-IsValid cur address copied s pid v e
  Step-IsValid {s} (kill pid) v = go (kkill-KillCase pid s)
    where
      go : {r : ℕ × Procs} → KillCase pid s r → IsValid r.1
      go (no_such _ e) = subst (λ r. IsValid r.1) (sym e) v
      go {r} (killed_first i _ _ _ _ x) =
          Changes-IsValid s r.1 i (r.1.table i) v
            (record { here = refl; others = x.others; same_init = x.same_init }) x.same_next x.same
  Step-IsValid {s} (wake cur chan) v =
      SameId-IsValid s (wakeup cur chan s) v (wakeup-same cur chan s 0).1
        (wakeup-same cur chan s 0).0 (wakeup-SameId cur chan s)
  Step-IsValid {s} (sleep cur chan runs) v =
      Changes-IsValid s _ cur _ v (Changes-set_proc s cur _) refl (ground arith)
  Step-IsValid {s} (resume cur) v =
      Changes-IsValid s _ cur _ v (Changes-set_proc s cur _) refl (ground arith)
  Step-IsValid {s} (give_up cur runs) v =
      Changes-IsValid s _ cur _ v (Changes-set_proc s cur _) refl (ground arith)
  Step-IsValid {s} (mark i) v =
      Changes-IsValid s _ i _ v (Changes-set_proc s i _) refl (ground arith)
  Step-IsValid {s} (run i can) v =
      Changes-IsValid s _ i _ v (Changes-set_proc s i _) refl (ground arith)

  Reach-IsValid_from : {s t : Procs} → IsValid s → Reach s t → IsValid t
  Reach-IsValid_from v here = v
  Reach-IsValid_from v (next r st) = Step-IsValid st (Reach-IsValid_from v r)

-- The table with the first process alone: allocated, then given its directory and made runnable.
abbrev booted : ℕ → ℕ → ℕ → Procs
booted tf pt root =
    let s1 : Procs = record {
      table =
          update (λ _. empty_proc) 0
            (record empty_proc {
              pid = 1;
              state = used;
              trapframe = tf;
              pagetable = pt;
              tracing = 0;
            });
      nextpid = 2;
      initproc = 0;
    } in
    record (set_proc s1 0 (record (s1.table 0) { cwd = some root; state = runnable })) {
      initproc = 0;
    }

booted-IsValid : (tf pt root : ℕ) → IsValid (booted tf pt root)
booted-IsValid tf pt root = record {
  free = λ i h u. ground arith;
  taken = λ i h u z. ground arith;
  issued = λ i h. ground arith;
  unique = λ i j h k ne e. ground arith;
  parents = λ i q h e. ground arith;
  init_in = omega arith;
  init_live = refl;
}

userinit-booted : (tf pt root : ℕ) {s : Procs} → userinit tf pt root procinit ≡ some s → IsValid s
unfolding userinit procinit allocproc allocproc_found allocpid find_from freeproc
userinit-booted tf pt root {s} e = elim (ℕ_discrete tf 0) [
  | yes z ↦ ground arith
  | no htf ↦ elim (ℕ_discrete pt 0) [
    | yes z ↦ ground arith
    | no hpt ↦
        let made : userinit tf pt root procinit ≡ some (booted tf pt root) = ground arith in
        let same : booted tf pt root ≡ s = cc in subst IsValid same (booted-IsValid tf pt root)
  ]
]

-- From boot on, whatever the processes and the scheduler do, in whatever order, the process table
-- is well-formed while process ids do not wrap: free entries have no id and no parent, entries in
-- use have ids that differ and are below the next one, and every parent is an entry in use that
-- has not exited, as is the first process.
pub Reach-IsValid :
    (addr : ℕ → ℕ) (tf pt root : ℕ) {s t : Procs}
    → userinit tf pt root procinit ≡ some s
    → Reach addr s t
    → IsValid t
Reach-IsValid addr tf pt root e r = Reach-IsValid_from addr (userinit-booted tf pt root e) r
