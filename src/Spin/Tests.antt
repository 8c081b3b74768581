-- ===== src/Spin/Tests.antt =====
-- kernel/spinlock.c: runs of two CPUs, and of push_off and pop_off on one.
use model_lib.Base.{ℕ, ◌≡◌, refl, Bool, true, false, List, [], ◌∷◌}
use model_lib.Base.Outcome.{done}
use model_lib.Spin.{
  Cpu, push_off, inside, Spin, holding, acquire_start, acquire_try, acquire_end, release_start,
  acquires, tries, takes, releases, initlock, Reach, start, more, set_core, spinning,
}
use model_lib.Spin.Nesting.{
  Call, push, pop, calls, Matched, nothing, pair, Restored, Matched-Restored,
}
use model_lib.Spin.Exclusion.{Reach-excludes, Reach-succeeds}

abbrev first : ℕ
first = 0

abbrev on : ℕ → Bool
on i = true

abbrev spins : Spin
spins =
    let s = initlock on in
    let c = s.cores 0 in set_core 0 (record c { cpu = push_off c.cpu; phase = spinning }) s

spins-Reach : Reach on spins
unfolding acquire_start holding push_off
spins-Reach = more (initlock on) spins start (acquires 0 refl)

-- CPU 0 has acquired the lock, and CPU 1 has not.
abbrev taken : Spin
taken = acquire_end 0 (acquire_try 0 spins)

taken-Reach : Reach on taken
unfolding acquire_try
taken-Reach =
    more (acquire_try 0 spins) taken (more spins (acquire_try 0 spins) spins-Reach (tries 0 refl))
      (takes 0 refl)

taken-inside : (taken.cores 0).phase ≡ inside
unfolding acquire_end acquire_try
taken-inside = refl

Reach-excludes_example :
    (first ≡ first) × ((taken.cores 0).cpu.interrupts ≡ false) × (holding 0 taken ≡ true)
Reach-excludes_example = Reach-excludes on taken first first taken-Reach taken-inside taken-inside

Reach-succeeds_example : (t : Spin) × (release_start 0 taken ≡ done t) × Reach on t
Reach-succeeds_example =
    Reach-succeeds on taken (release_start 0 taken) taken-Reach (releases 0 taken-inside)

abbrev two_levels : List Call
two_levels = push ∷ push ∷ pop ∷ pop ∷ push ∷ pop ∷ []

two_levels-Matched : Matched two_levels
two_levels-Matched =
    pair (push ∷ pop ∷ []) (push ∷ pop ∷ []) (pair [] [] nothing nothing)
      (pair [] [] nothing nothing)

abbrev running : Cpu
running = record { noff = 0; intena = false; interrupts = true }

Matched-Restored_example : (d : Cpu) × (calls two_levels running ≡ done d) × Restored running d
Matched-Restored_example =
    Matched-Restored two_levels running two_levels-Matched (λ ne. absurd (ne refl))
