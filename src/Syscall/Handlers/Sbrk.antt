-- ===== src/Syscall/Handlers/Sbrk.antt =====
-- sys_sbrk and sys_pause of kernel/sysproc.c, and growproc of kernel/proc.c.
use model_lib.Base.{ℕ, ◌+◌, ◌-◌, ◌^◌, ◌≤◌, ◌<◌, ◌≡◌, ◌≢◌, ◌⊎◌, ◌↔◌, false, none, some, arith}
use model_lib.Base.Words.{u32, minus_one_64}
use model_lib.Layout.{trapframe}
use model_lib.Proc.{sleep_on}
use model_lib.Syscall.{Kernel, returns, blocks, proc_of}
use model_lib.Syscall.Handlers.{Memory, growproc, sbrk_size, pause_pass, sbrk_eager}

module _ (addr : ℕ → ℕ) (ticks_addr : ℕ) (memory : Memory) where
  -- The size that sbrk(n, t) leaves a process with, which was at most TRAPFRAME, is at most
  -- TRAPFRAME. A growth by n, lazy or eager, adds exactly n; a shrinking by m subtracts exactly m,
  -- or nothing if the process is smaller than m.
  pub sbrk_size_bounds :
      (n t sz sz' : ℕ)
      → n < 2 ^ 32
      → sz ≤ trapframe
      → sbrk_size addr ticks_addr memory n t sz ≡ some sz'
      → (sz' ≤ trapframe)
        × (n < 2 ^ 31 → sz' ≡ sz + n)
        × (2 ^ 31 ≤ n → 2 ^ 32 - n ≤ sz → sz' ≡ sz - (2 ^ 32 - n))
        × (2 ^ 31 ≤ n → sz < 2 ^ 32 - n → sz' ≡ sz)
  unfolding sbrk_size growproc
  sbrk_size_bounds n t sz sz' hn hsz e =
      (ground arith, λ h. ground arith, λ h k. ground arith, λ h k. ground arith)

  -- sbrk(n, t) fails exactly if it is to grow the process beyond TRAPFRAME, or at once without
  -- memory for it.
  pub sbrk_size-none_iff :
      (n t sz : ℕ)
      → n < 2 ^ 32
      → sz ≤ trapframe
      → (sbrk_size addr ticks_addr memory n t sz ≡ none) ↔ (
          (n < 2 ^ 31)
          × ((trapframe < sz + n) ⊎ ((t ≡ sbrk_eager) × (0 < n) × (memory.grown ≡ false))))
  unfolding sbrk_size growproc
  sbrk_size-none_iff n t sz hn hsz = (λ e. ground arith, λ h. ground arith)

  -- A test of pause's loop ends the call with 0 exactly if at least n ticks have passed since
  -- `ticks0`, counted modulo 2 ^ 32, with -1 exactly if fewer have passed and the process is
  -- killed, and otherwise puts the process to sleep on the tick channel.
  pub pause_pass_lem :
      (cur ticks0 passed n : ℕ) (k : Kernel)
      → ticks0 < 2 ^ 32
      → passed < 2 ^ 32
      → k.ticks ≡ u32 (ticks0 + passed)
      → (n ≤ passed → pause_pass addr ticks_addr memory cur ticks0 n k ≡ returns 0 k)
        × (passed < n
            → (proc_of cur k).killed ≢ 0
            → pause_pass addr ticks_addr memory cur ticks0 n k ≡ returns minus_one_64 k)
        × (passed < n
            → (proc_of cur k).killed ≡ 0
            → pause_pass addr ticks_addr memory cur ticks0 n k
              ≡ blocks (record k { procs = sleep_on cur ticks_addr k.procs }))
  unfolding pause_pass
  pause_pass_lem cur ticks0 passed n k h0 hp e =
      (λ h. ground arith, λ h d. ground arith, λ h d. ground arith)
