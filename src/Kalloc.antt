-- ===== src/Kalloc.antt =====
-- kernel/kalloc.c: the physical page allocator. The free list runs through the pages themselves.
-- Every operation runs under kmem.lock, so one call is one step here; the lock is in Spinlock.
pub mod Chain
pub mod Refine
pub mod Init
mod Tests
use model_lib.Base.{
  ℕ, zero, suc, ◌+◌, ◌*◌, ◌/◌, ◌%◌, Bool, true, false, ◌||◌, not, ltb, leb, ◌==◌, ◌&&◌,
  if◌then◌else◌, update,
}
use model_lib.Base.Outcome.{Outcome, done, panic, no_fuel, ◌>>=◌}
use model_lib.Layout.{pgsize, phystop, pg_round_up}

-- Physical memory as 64-bit words, by the address of the word, and `kmem.freelist`.
pub record Kmem : Type 0 where
  pub mem : ℕ → ℕ
  pub freelist : ℕ

-- `memset(pa, c, PGSIZE)`, seen by words.
abbrev pub fill_page : ℕ → ℕ → (ℕ → ℕ) → ℕ → ℕ
fill_page pa c mem a = if leb pa a && ltb a (pa + pgsize) then c * 0x0101010101010101 else mem a

-- `end` is the first address after the kernel, from the linker.
module _ (end_of_kernel : ℕ) where
  abbrev pub refuses : ℕ → Bool
  refuses pa = not (pa % pgsize == 0) || ltb pa end_of_kernel || leb phystop pa

  pub kfree : ℕ → Kmem → Outcome Kmem
  kfree pa s =
      if refuses pa
      then panic "kfree"
      else done (record { mem = update (fill_page pa 1 s.mem) pa s.freelist; freelist = pa })

  -- `for (; p + PGSIZE <= pa_end; p += PGSIZE) kfree(p)`
  pub freerange_loop : ℕ → ℕ → ℕ → Kmem → Outcome Kmem
  freerange_loop zero p pa_end s = no_fuel
  freerange_loop (suc fuel) p pa_end s = elim (leb (p + pgsize) pa_end) [
    | true ↦ kfree p s >>= freerange_loop fuel (p + pgsize) pa_end
    | false ↦ done s
  ]

  pub freerange : ℕ → ℕ → ℕ → Kmem → Outcome Kmem
  freerange fuel pa_start pa_end s = freerange_loop fuel (pg_round_up pa_start) pa_end s

  -- PHYSTOP / PGSIZE pages lie below PHYSTOP; `freerange-enough` shows that the fuel is enough.
  pub kinit : Kmem → Outcome Kmem
  kinit s = freerange (phystop / pgsize + 1) end_of_kernel phystop s

pub kalloc : Kmem → ℕ × Kmem
kalloc s =
    if s.freelist == 0
    then (0, s)
    else (s.freelist, record { mem = fill_page s.freelist 5 s.mem; freelist = s.mem s.freelist })
