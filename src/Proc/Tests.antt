-- ===== src/Proc/Tests.antt =====
-- The theorems on kernel/proc.c at concrete tables.
use model_lib.Base.{ℕ, ◌+◌, ◌*◌, ◌≤◌, ◌<◌, ◌≡◌, ◌≢◌, ◌⊎◌, inl, inr, true, some, arith, refl, update}
use model_lib.Base.Outcome.{done, panic}
use model_lib.Proc.{
  ProcState, Procs, ForkMemory, empty_proc, running, sleeping, runnable, zombie, is_unused, nproc,
  kfork, kfork_found, kexit, kwait_pass, kkill, wakeup, sleep_on, procinit, userinit, allocproc,
  allocproc_found, allocpid, find_from,
}
use model_lib.Proc.Valid.{IsValid}
use model_lib.Proc.Alloc.{Forked, Failed}
use model_lib.Proc.Fork.{kfork-Forked, kfork-Failed}
use model_lib.Proc.Wake.{wakeup-sleep_on}
use model_lib.Proc.Exit.{Exited, Closed, kexit-Exited}
use model_lib.Proc.Wait.{WaitCase, kwait_pass-WaitCase}
use model_lib.Proc.Kill.{KillCase, kkill-KillCase, kkill-zero}
use model_lib.Proc.System.{here, next, kill, Reach-IsValid}

-- Where the entries of the table stand; a struct proc takes 368 bytes.
abbrev addr : ℕ → ℕ
addr i = 0x80010000 + i * 368

abbrev enough : ForkMemory
enough = record { trapframe = 0x80022000; pagetable = 0x80023000; copied = true }

abbrev too_little : ForkMemory
too_little = record { trapframe = 0x80022000; pagetable = 0; copied = true }

-- The first process runs, traced; the others are free.
abbrev alone : Procs
alone = record {
  table = update (λ _. empty_proc) 0 (record empty_proc { pid = 1; state = running; tracing = 1 });
  nextpid = 2;
  initproc = 0;
}

-- Its child, in entry 1, runs.
abbrev with_child : Procs
with_child = record {
  table = update alone.table 1 (record empty_proc { pid = 2; state = running; parent = some 0 });
  nextpid = 3;
  initproc = 0;
}

-- The child has exited with status 7.
abbrev with_zombie : Procs
with_zombie = record {
  table =
      update alone.table 1
        (record empty_proc { pid = 2; state = zombie; xstate = 7; parent = some 0 });
  nextpid = 3;
  initproc = 0;
}

alone-IsValid : IsValid alone
alone-IsValid = record {
  free = λ i h u. ground arith;
  taken = λ i h u z. ground arith;
  issued = λ i h. ground arith;
  unique = λ i j h k ne e. ground arith;
  parents = λ i q h e. ground arith;
  init_in = omega arith;
  init_live = refl;
}

fork_pid : (kfork enough 0 alone).0 ≡ 2
unfolding kfork allocproc allocproc_found allocpid find_from kfork_found
fork_pid = refl

kfork-Forked_example :
    (i : ℕ) × (i ≤ 1)
    × (is_unused (alone.table i).state ≡ true)
    × Forked enough 0 alone i (kfork enough 0 alone)
kfork-Forked_example =
    kfork-Forked enough 0 alone 1 (omega arith) refl refl (λ z. omega arith, λ z. omega arith, refl)

kfork-Failed_example : Failed too_little 0 alone (kfork too_little 0 alone)
kfork-Failed_example = kfork-Failed too_little 0 alone (inr (inr (inl refl)))

wakeup-sleep_on_example :
    let t = sleep_on 1 (addr 0) with_child in
    ((wakeup 0 (addr 0) t).table 1 ≡ record (t.table 1) { state = runnable })
    × ((wakeup 0 (addr 1) t).table 1 ≡ t.table 1)
    × ((j : ℕ)
        → j < nproc
        → j ≢ 0
        → ((wakeup 0 (addr 0) t).table j).state ≡ sleeping
        → ((wakeup 0 (addr 0) t).table j).chan ≢ addr 0)
wakeup-sleep_on_example =
    wakeup-sleep_on with_child 1 0 (addr 0) (addr 1) (omega arith) (λ z. omega arith)
      (λ z. omega arith)

kexit-Exited_example :
    ((◌≡◌ {A = ℕ} 1 0) × (kexit addr 1 7 with_child ≡ panic "init exiting"))
    ⊎ ((◌≢◌ {A = ℕ} 1 0)
        × ((t : Procs) × (kexit addr 1 7 with_child ≡ done t)
            × Exited addr 1 7 with_child t
            × Closed 1 t))
kexit-Exited_example = kexit-Exited addr 1 7 with_child (omega arith)

kwait_pass-WaitCase_example : WaitCase 0 0 true with_zombie (kwait_pass 0 0 true with_zombie)
kwait_pass-WaitCase_example = kwait_pass-WaitCase 0 0 true with_zombie

kkill-KillCase_example : KillCase 2 with_child (kkill 2 with_child)
kkill-KillCase_example = kkill-KillCase 2 with_child

kkill-zero_example :
    let t = (kkill 0 alone).1 in
    ((kkill 0 alone).0 ≡ 0)
    × ((i : ℕ) × (is_unused (alone.table i).state ≡ true)
        × (((kfork enough 0 t).1.table i).pid ≡ 2)
        × (((kfork enough 0 t).1.table i).killed ≡ 1))
kkill-zero_example =
    kkill-zero enough 0 1 alone alone-IsValid (omega arith) refl refl (omega arith)
      (λ z. omega arith, λ z. omega arith, refl)

-- The first process is run and forks.
abbrev first : Procs
first = record {
  table =
      update
        (update (λ _. empty_proc) 0
          (record empty_proc {
            pid = 1;
            state = ProcState.used;
            trapframe = 0x80022000;
            pagetable = 0x80023000;
            tracing = 0;
          }))
        0
        (record empty_proc {
          pid = 1;
          state = runnable;
          trapframe = 0x80022000;
          pagetable = 0x80023000;
          cwd = some 0;
        });
  nextpid = 2;
  initproc = 0;
}

first_boot : userinit 0x80022000 0x80023000 0 procinit ≡ some first
unfolding userinit procinit allocproc allocproc_found allocpid find_from
first_boot = refl

Reach-IsValid_example : IsValid (kkill 1 (kkill 5 first).1).1
Reach-IsValid_example =
    Reach-IsValid addr 0x80022000 0x80023000 0 first_boot (next (next here (kill 5)) (kill 1))
