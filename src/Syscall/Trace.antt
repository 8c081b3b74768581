-- ===== src/Syscall/Trace.antt =====
-- Which system calls leave a line on the console, in kernel/syscall.c and kernel/sysproc.c.
use Prim.Native.Nat.{bit_and}
use model_lib.Base.{
  ℕ, zero, suc, ◌*◌, ◌/◌, ◌%◌, ◌^◌, ◌≤◌, ◌<◌, ◌≡◌, ◌≢◌, ◌⊎◌, ◌↔◌, inl, inr, true, false, arith,
  refl, ◌∷◌, get_or, Bool-cases, ap, sym, ◌∙◌,
}
use native.Mathlib.Nat.{pow-suc}
use native.Mathlib.Decide.{ℕ_discrete}
use model_lib.Base.Words.{u32, minus_one_64, bit_and-pow}
use model_lib.Syscall.{
  Kernel, returns, no_return, Handlers, traced, unknown, print, proc_of, set_a0, syscallnames,
  wants_trace, is_known, after_handler, syscall, sys_exit_number,
}

pow_pos : (k : ℕ) → 0 < 2 ^ k
pow_pos zero = omega arith
pow_pos (suc k) = omega (arith, pow-suc 2 k, pow_pos k)

-- A process is traced at a call if its tracing state is 1, or has the bit of the call's number.
abbrev pub WantsTrace : ℕ → ℕ → Type 0
WantsTrace tracing num = (tracing ≡ 1) ⊎ (tracing / 2 ^ num % 2 ≡ 1)

factor-zero : (d p : ℕ) → 0 < p → d * p ≡ 0 → d ≡ 0
factor-zero zero p h e = refl
factor-zero (suc d) p h e = absurd (omega arith)

bit_set : (tracing num : ℕ) → (bit_and tracing (2 ^ num) ≡ 0) ↔ (tracing / 2 ^ num % 2 ≡ 0)
bit_set tracing num = (
  λ e.
      factor-zero (tracing / 2 ^ num % 2) (2 ^ num) (pow_pos num)
        (sym (bit_and-pow num tracing) ∙ e),
  λ e. bit_and-pow num tracing ∙ ap (λ d. d * 2 ^ num) e ∙ omega arith,
)

pub wants_trace_iff : (tracing num : ℕ) → (wants_trace tracing num ≡ true) ↔ WantsTrace tracing num
wants_trace_iff tracing num =
    (λ e. ground (arith, bit_set tracing num), λ e. ground (arith, bit_set tracing num))

-- What the return of a handler with the value `v` in the state `k` leaves: the value in a0, and on
-- the console one line more if the call is not exit and the process is traced at it.
pub record Finished (cur num v : ℕ) (k k' : Kernel) : Type 0 where
  pub value : (proc_of cur k').regs.a0 ≡ v
  pub printed :
      num ≢ sys_exit_number
      → WantsTrace (proc_of cur k).tracing num
      → k'.console ≡ traced (proc_of cur k).pid (get_or syscallnames num "") v ∷ k.console
  pub quiet :
      (num ≡ sys_exit_number) ⊎ (¬ WantsTrace (proc_of cur k).tracing num) → k'.console ≡ k.console
  pub others : (j : ℕ) → j ≢ cur → proc_of j k' ≡ proc_of j k
  pub same_tracing : (proc_of cur k').tracing ≡ (proc_of cur k).tracing

module _ (cur num v : ℕ) (k : Kernel) where
  after_handler_traced :
      num ≢ sys_exit_number
      → wants_trace (proc_of cur k).tracing num ≡ true
      → after_handler cur num v k
        ≡ print (traced (proc_of cur k).pid (get_or syscallnames num "") v) (set_a0 cur v k)
  unfolding after_handler
  after_handler_traced ne w = ground arith

  after_handler_quiet :
      (num ≡ sys_exit_number) ⊎ (wants_trace (proc_of cur k).tracing num ≡ false)
      → after_handler cur num v k ≡ set_a0 cur v k
  unfolding after_handler
  after_handler_quiet h = ground arith

  after_handler-Finished : Finished cur num v k (after_handler cur num v k)
  after_handler-Finished = record {
    value = ground (arith, either);
    printed = λ ne w. ground (arith, after_handler_traced ne ((wants_trace_iff _ num).1 w));
    quiet = λ h. ground (arith, after_handler_quiet (never h));
    others = λ j ne. ground (arith, either);
    same_tracing = ground (arith, either);
  }
    where
      line : Kernel
      line = print (traced (proc_of cur k).pid (get_or syscallnames num "") v) (set_a0 cur v k)

      either : (after_handler cur num v k ≡ set_a0 cur v k) ⊎ (after_handler cur num v k ≡ line)
      either = elim (ℕ_discrete num sys_exit_number) [
        | yes e ↦ inl (after_handler_quiet (inl e))
        | no ne ↦ elim (Bool-cases (wants_trace (proc_of cur k).tracing num)) [
          | inl w ↦ inr (after_handler_traced ne w)
          | inr w ↦ inl (after_handler_quiet (inr w))
        ]
      ]

      never :
          (num ≡ sys_exit_number) ⊎ (¬ WantsTrace (proc_of cur k).tracing num)
          → (num ≡ sys_exit_number) ⊎ (wants_trace (proc_of cur k).tracing num ≡ false)
      never (inl e) = inl e
      never (inr not_wanted) = elim (Bool-cases (wants_trace (proc_of cur k).tracing num)) [
        | inl w ↦ absurd (not_wanted ((wants_trace_iff _ num).0 w))
        | inr w ↦ inr w
      ]

known : (num : ℕ) → 0 < num → num < 27 → is_known num ≡ true
known num h l = ground arith

not_known : (num : ℕ) → (num ≡ 0) ⊎ (27 ≤ num) → is_known num ≡ false
not_known num h = ground arith

module _ (handlers : Handlers) (cur : ℕ) (k : Kernel) where
  abbrev pub number : ℕ
  number = u32 (proc_of cur k).regs.a7

  -- A call with a number from 1 to 26 whose handler returns puts the value in a0 and prints one
  -- line, with the id, the call's name and the value, exactly if the call is not exit and the
  -- process, in the state that the handler leaves, is traced at it: its tracing state is 1 or has
  -- the bit of the number. No other process changes after the handler.
  pub syscall-Finished :
      (v : ℕ) (k' : Kernel)
      → 0 < number
      → number < 27
      → handlers number cur k ≡ returns v k'
      → (k2 : Kernel) × (syscall handlers cur k ≡ returns v k2) × Finished cur number v k' k2
  unfolding syscall
  syscall-Finished v k' h l e = (
    after_handler cur number v k',
    rw (known number h l, e) refl,
    after_handler-Finished cur number v k',
  )

  -- A call whose handler does not return does not return.
  pub syscall-no_return :
      (k' : Kernel)
      → 0 < number
      → number < 27
      → handlers number cur k ≡ no_return k'
      → syscall handlers cur k ≡ no_return k'
  unfolding syscall
  syscall-no_return k' h l e = rw (known number h l, e) refl

  -- A call with any other number runs no handler: a0 becomes -1, a line on the console names the
  -- process and the number, and nothing else changes.
  pub syscall_unknown :
      (number ≡ 0) ⊎ (27 ≤ number)
      → (k2 : Kernel) × (syscall handlers cur k ≡ returns minus_one_64 k2)
        × ((proc_of cur k2).regs.a0 ≡ minus_one_64)
        × (k2.console ≡ unknown (proc_of cur k).pid (proc_of cur k).name number ∷ k.console)
        × ((j : ℕ) → j ≢ cur → proc_of j k2 ≡ proc_of j k)
        × (k2.ticks ≡ k.ticks)
        × ((proc_of cur k2).tracing ≡ (proc_of cur k).tracing)
  unfolding syscall
  syscall_unknown h = (
    set_a0 cur minus_one_64 (print (unknown (proc_of cur k).pid (proc_of cur k).name number) k),
    rw (not_known number h) refl,
    ground arith,
    refl,
    λ j ne. ground arith,
    refl,
    ground arith,
  )
