-- ===== src/Syscall/Handlers/Traced.antt =====
-- The system calls trace and exit: which lines they leave on the console.
use model_lib.Base.{ℕ, ◌<◌, ◌≡◌, ◌≢◌, inl, inr, false, arith, ◌∷◌, ap, sym, ◌∙◌, subst, Bool-cases}
use model_lib.Base.Outcome.{done}
use model_lib.Base.Words.{u32}
use model_lib.Proc.{kexit, nproc}
use model_lib.Proc.Exit.{kexit-Exited, Exited, Closed}
use model_lib.Syscall.{
  Kernel, returns, no_return, Handlers, traced, exiting, proc_of, set_of, wants_trace, syscall,
}
use model_lib.Syscall.Trace.{
  WantsTrace, wants_trace_iff, syscall-Finished, syscall-no_return, Finished,
}
use model_lib.Syscall.Handlers.{Memory, syscall_table, sys_trace, sys_exit, exit_line, exit_from}

module _ (addr : ℕ → ℕ) (ticks_addr : ℕ) (memory : Memory) (others : Handlers) (cur : ℕ)
    (k : Kernel) where
  table_trace :
      (num : ℕ)
      → num ≡ 23
      → syscall_table addr ticks_addr memory others num cur k
        ≡ sys_trace addr ticks_addr memory cur k
  unfolding syscall_table
  table_trace num e = ground arith

  table_exit :
      (num : ℕ)
      → num ≡ 2
      → syscall_table addr ticks_addr memory others num cur k
        ≡ sys_exit addr ticks_addr memory cur k
  unfolding syscall_table
  table_exit num e = ground arith

  -- trace(v) sets the tracing state of the caller to v and of no other process, and returns 0.
  -- It is traced itself by the new state: by v, not by what was set before.
  pub syscall_trace :
      u32 (proc_of cur k).regs.a7 ≡ 23
      → let v = u32 (proc_of cur k).regs.a0 in
        (k2 : Kernel) × (syscall (syscall_table addr ticks_addr memory others) cur k ≡ returns 0 k2)
        × ((proc_of cur k2).tracing ≡ v)
        × ((j : ℕ) → j ≢ cur → proc_of j k2 ≡ proc_of j k)
        × (WantsTrace v 23 → k2.console ≡ traced (proc_of cur k).pid "trace" 0 ∷ k.console)
        × ((¬ WantsTrace v 23) → k2.console ≡ k.console)
  unfolding sys_trace
  syscall_trace is_trace =
      let (k2, e, f) =
        syscall-Finished (syscall_table addr ticks_addr memory others) cur k 0 k' (omega arith)
          (omega arith) (table_trace _ is_trace) in
      (
        k2,
        e,
        f.same_tracing ∙ new_tracing,
        λ j ne. f.others j ne ∙ other_procs j ne,
        λ w. line k2 (at_23 k2 f) w,
        λ w. no_line k2 (at_23 k2 f) w,
      )
    where
      k' : Kernel
      k' = set_of cur (record (proc_of cur k) { tracing = u32 (proc_of cur k).regs.a0 }) k

      new_tracing : (proc_of cur k').tracing ≡ u32 (proc_of cur k).regs.a0
      new_tracing = ground arith

      other_procs : (j : ℕ) → j ≢ cur → proc_of j k' ≡ proc_of j k
      other_procs j ne = ground arith

      same_pid : (proc_of cur k').pid ≡ (proc_of cur k).pid
      same_pid = ground arith

      at_23 :
          (k2 : Kernel)
          → Finished cur (u32 (proc_of cur k).regs.a7) 0 k' k2
          → Finished cur 23 0 k' k2
      at_23 k2 f = subst (λ n. Finished cur n 0 k' k2) is_trace f

      line :
          (k2 : Kernel)
          → Finished cur 23 0 k' k2
          → WantsTrace (u32 (proc_of cur k).regs.a0) 23
          → k2.console ≡ traced (proc_of cur k).pid "trace" 0 ∷ k.console
      line k2 f w =
          f.printed (λ z. omega arith) (subst (λ t. WantsTrace t 23) (sym new_tracing) w)
          ∙ ap (λ p. traced p "trace" 0 ∷ k.console) same_pid

      no_line :
          (k2 : Kernel)
          → Finished cur 23 0 k' k2
          → ¬ WantsTrace (u32 (proc_of cur k).regs.a0) 23
          → k2.console ≡ k.console
      no_line k2 f w = f.quiet (inr (λ t. w (subst (λ t. WantsTrace t 23) new_tracing t)))

  -- exit(n) of a process other than the first never returns. The table is then the one that kexit
  -- makes of the table before: the process is a zombie without files, with the status n, and its
  -- children have the first process as their parent. The call prints one line, with the id and n,
  -- exactly if the process is traced at exit, and else none.
  pub syscall_exit :
      u32 (proc_of cur k).regs.a7 ≡ 2
      → cur < nproc
      → cur ≢ k.procs.initproc
      → let n = u32 (proc_of cur k).regs.a0 in
        (k2 : Kernel) × (syscall (syscall_table addr ticks_addr memory others) cur k ≡ no_return k2)
        × (kexit addr cur n k.procs ≡ done k2.procs)
        × Exited addr cur n k.procs k2.procs
        × Closed cur k2.procs
        × (WantsTrace (proc_of cur k).tracing 2
            → k2.console ≡ exiting (proc_of cur k).pid n ∷ k.console)
        × ((¬ WantsTrace (proc_of cur k).tracing 2) → k2.console ≡ k.console)
  unfolding sys_exit exit_line
  syscall_exit is_exit cur_in not_first = elim (kexit-Exited addr cur n k.procs cur_in) [
    | inl (first, _) ↦ absurd (not_first first)
    | inr (_, (t, e, x, c)) ↦ (
      record (exit_line cur k) { procs = t },
      exits _ (ap (exit_from (exit_line cur k)) (ap (kexit addr cur n) same_procs ∙ e)),
      e,
      x,
      c,
      λ w. ground (arith, (wants_trace_iff (proc_of cur k).tracing 2).1 w),
      λ not_wanted. ground (arith, quiet not_wanted),
    )
  ]
    where
      n : ℕ
      n = u32 (proc_of cur k).regs.a0

      same_procs : (exit_line cur k).procs ≡ k.procs
      same_procs = ground arith

      quiet : ¬ WantsTrace (proc_of cur k).tracing 2 → wants_trace (proc_of cur k).tracing 2 ≡ false
      quiet not_wanted = elim (Bool-cases (wants_trace (proc_of cur k).tracing 2)) [
        | inl w ↦ absurd (not_wanted ((wants_trace_iff (proc_of cur k).tracing 2).0 w))
        | inr w ↦ w
      ]

      exits :
          (k2 : Kernel)
          → sys_exit addr ticks_addr memory cur k ≡ no_return k2
          → syscall (syscall_table addr ticks_addr memory others) cur k ≡ no_return k2
      exits k2 e =
          syscall-no_return (syscall_table addr ticks_addr memory others) cur k k2 (omega arith)
            (omega arith) (table_exit _ is_exit ∙ e)
