-- ===== src/Syscall/Tests.antt =====
-- The theorems on kernel/syscall.c and kernel/sysproc.c at concrete states.
use model_lib.Base.{
  ℕ, ◌+◌, ◌*◌, ◌-◌, ◌^◌, ◌≤◌, ◌<◌, ◌≡◌, ◌≢◌, inr, true, some, arith, refl, update, [], ◌∷◌,
}
use model_lib.Base.Words.{minus_one_64}
use model_lib.Layout.{trapframe}
use model_lib.Base.Outcome.{done}
use model_lib.Proc.{empty_proc, running, kexit}
use model_lib.Proc.Exit.{Exited, Closed}
use model_lib.Syscall.{
  Kernel, returns, no_return, Handlers, traced, exiting, unknown, proc_of, syscall,
}
use model_lib.Syscall.Trace.{WantsTrace, Finished, syscall-Finished, syscall_unknown}
use model_lib.Syscall.Handlers.{Memory, syscall_table, sbrk_size, growproc, sbrk_eager}
use model_lib.Syscall.Handlers.Traced.{syscall_trace, syscall_exit}
use model_lib.Syscall.Handlers.Sbrk.{sbrk_size_bounds}

abbrev addr : ℕ → ℕ
addr i = 0x80010000 + i * 368

abbrev memory : Memory
memory = record {
  fork = record { trapframe = 0x80022000; pagetable = 0x80023000; copied = true };
  copied = true;
  grown = true;
}

-- Every handler of the other files returns 5.
abbrev five : Handlers
five num cur k = returns 5 k

-- Process 1 has made the call `num` with the arguments `a` and `b`.
abbrev calling : ℕ → ℕ → ℕ → ℕ → Kernel
calling tracing num a b = record {
  procs = record {
    table =
        update (λ _. empty_proc) 1
          (record empty_proc {
            pid = 4;
            state = running;
            parent = some 0;
            tracing = tracing;
            regs = record {
              a0 = a;
              a1 = b;
              a2 = 0;
              a3 = 0;
              a4 = 0;
              a5 = 0;
              a7 = num;
              rest = λ _. 0;
            };
          });
    nextpid = 5;
    initproc = 0;
  };
  ticks = 100;
  console = [];
}

abbrev reading : Kernel
reading = calling (2 ^ 5) 5 0 0

syscall-Finished_example :
    (k2 : Kernel) × (syscall five 1 reading ≡ returns 5 k2) × Finished 1 5 5 reading k2
syscall-Finished_example =
    syscall-Finished five 1 reading 5 reading (omega arith) (omega arith) refl

abbrev lost : Kernel
lost = calling 0 40 0 0

syscall_unknown_example :
    (k2 : Kernel) × (syscall five 1 lost ≡ returns minus_one_64 k2)
    × ((proc_of 1 k2).regs.a0 ≡ minus_one_64)
    × (k2.console ≡ unknown 4 [] 40 ∷ [])
    × ((j : ℕ) → j ≢ 1 → proc_of j k2 ≡ proc_of j lost)
    × (k2.ticks ≡ 100)
    × ((proc_of 1 k2).tracing ≡ 0)
syscall_unknown_example = syscall_unknown five 1 lost (inr (omega arith))

abbrev tracing_on : Kernel
tracing_on = calling 0 23 1 0

syscall_trace_example :
    (k2 : Kernel) × (syscall (syscall_table addr 0x80020000 memory five) 1 tracing_on
      ≡ returns 0 k2)
    × ((proc_of 1 k2).tracing ≡ 1)
    × ((j : ℕ) → j ≢ 1 → proc_of j k2 ≡ proc_of j tracing_on)
    × (WantsTrace 1 23 → k2.console ≡ traced 4 "trace" 0 ∷ [])
    × ((¬ WantsTrace 1 23) → k2.console ≡ [])
syscall_trace_example = syscall_trace addr 0x80020000 memory five 1 tracing_on refl

abbrev leaving : Kernel
leaving = calling 1 2 7 0

syscall_exit_example :
    (k2 : Kernel) × (syscall (syscall_table addr 0x80020000 memory five) 1 leaving ≡ no_return k2)
    × (kexit addr 1 7 leaving.procs ≡ done k2.procs)
    × Exited addr 1 7 leaving.procs k2.procs
    × Closed 1 k2.procs
    × (WantsTrace 1 2 → k2.console ≡ exiting 4 7 ∷ [])
    × ((¬ WantsTrace 1 2) → k2.console ≡ [])
syscall_exit_example =
    syscall_exit addr 0x80020000 memory five 1 leaving refl (omega arith) (λ z. omega arith)

grown_by_5000 : sbrk_size addr 0x80020000 memory 5000 sbrk_eager 4096 ≡ some 9096
unfolding sbrk_size growproc
grown_by_5000 = refl

sbrk_size_bounds_example :
    (9096 ≤ trapframe)
    × (5000 < 2 ^ 31 → 9096 ≡ 4096 + 5000)
    × (2 ^ 31 ≤ 5000 → 2 ^ 32 - 5000 ≤ 4096 → 9096 ≡ 4096 - (2 ^ 32 - 5000))
    × (2 ^ 31 ≤ 5000 → 4096 < 2 ^ 32 - 5000 → ◌≡◌ {A = ℕ} 9096 4096)
sbrk_size_bounds_example =
    sbrk_size_bounds addr 0x80020000 memory 5000 sbrk_eager 4096 9096 (omega arith) (omega arith)
      grown_by_5000
