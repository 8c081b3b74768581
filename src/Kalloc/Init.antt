-- ===== src/Kalloc/Init.antt =====
-- kinit and freerange of kernel/kalloc.c: the free list after boot.
use model_lib.Base.{
  ℕ, zero, suc, ◌+◌, ◌-◌, ◌*◌, ◌/◌, ◌%◌, ◌≤◌, ◌<◌, ◌≡◌, refl, List, [], ◌∷◌, arith, length, ap, ◌∙◌,
  subst,
}
use native.Mathlib.Decide.{dec_lt}
use model_lib.Base.Outcome.{done}
use model_lib.Layout.{pgsize, phystop, pg_round_up}
use model_lib.Kalloc.{Kmem, freerange_loop, freerange, kinit, kfree}
use model_lib.Kalloc.Chain.{Absent, Holds}
use model_lib.Kalloc.Refine.{kfree-Holds}

-- The `n` pages from `base` on, the highest first.
abbrev pub descending : ℕ → ℕ → List ℕ
descending base zero = []
descending base (suc n) = (base + n * pgsize) ∷ descending base n

Absent-descending : (base n p : ℕ) → base + n * pgsize ≤ p → Absent p (descending base n)
Absent-descending base zero p h = tt
Absent-descending base (suc n) p h = (λ e. omega arith, Absent-descending base n p (omega arith))

pub length-descending : (base n : ℕ) → length (descending base n) ≡ n
length-descending base zero = refl
length-descending base (suc n) = ap suc (length-descending base n)

module _ (end_of_kernel fuel p pa_end : ℕ) (s : Kmem) where
  freerange_loop_more :
      {t : Kmem}
      → p + pgsize ≤ pa_end
      → kfree end_of_kernel p s ≡ done t
      → freerange_loop end_of_kernel (suc fuel) p pa_end s
        ≡ freerange_loop end_of_kernel fuel (p + pgsize) pa_end t
  unfolding freerange_loop
  freerange_loop_more h e = ground arith

  freerange_loop_stop :
      pa_end < p + pgsize → freerange_loop end_of_kernel (suc fuel) p pa_end s ≡ done s
  unfolding freerange_loop
  freerange_loop_stop h = ground arith

module _ (end_of_kernel base n : ℕ) (positive : 0 < base) (aligned : base % pgsize ≡ 0)
    (above : end_of_kernel ≤ base) (below : base + n * pgsize ≤ phystop)
    (last : phystop < base + (n + 1) * pgsize) where
  step : (k : ℕ) → base + k * pgsize + pgsize ≡ base + suc k * pgsize
  step k = omega arith

  freerange_loop-Holds :
      (fuel k : ℕ) (s : Kmem)
      → k ≤ n
      → n < k + fuel
      → Holds end_of_kernel s (descending base k)
      → (t : Kmem) × (freerange_loop end_of_kernel fuel (base + k * pgsize) phystop s ≡ done t)
        × Holds end_of_kernel t (descending base n)
  unfolding freerange_loop
  freerange_loop-Holds zero k s hk hf holds = absurd (omega arith)
  freerange_loop-Holds (suc fuel) k s hk hf holds = elim (dec_lt k n) [
    | yes more ↦
        let (t, freed, held) =
          kfree-Holds end_of_kernel s (descending base k) holds (base + k * pgsize)
            (λ e. omega arith)
            (record { aligned = omega arith; above = omega arith; below = omega arith })
            (Absent-descending base k (base + k * pgsize) (omega arith)) in
        let (u, ran, held') =
          freerange_loop-Holds fuel (suc k) t (omega arith) (omega arith) held in
        (
          u,
          freerange_loop_more end_of_kernel fuel (base + k * pgsize) phystop s (omega arith) freed
              ∙ rw step ran,
          held',
        )
    | no stop ↦
        let e : k ≡ n = omega arith in
        (
          s,
          freerange_loop_stop end_of_kernel fuel (base + k * pgsize) phystop s (omega arith),
          subst (λ j. Holds end_of_kernel s (descending base j)) e holds,
        )
  ]

-- The pages between the kernel's end, rounded up, and PHYSTOP.
abbrev pub free_pages : ℕ → ℕ
free_pages end_of_kernel = (phystop - pg_round_up end_of_kernel) / pgsize

-- After kinit the free list holds every page between the kernel's end and PHYSTOP, each once,
-- the highest first: kinit neither panics nor runs out of fuel.
pub kinit-Holds :
    (end_of_kernel : ℕ) (s : Kmem)
    → 0 < end_of_kernel
    → end_of_kernel ≤ phystop
    → s.freelist ≡ 0
    → (t : Kmem) × (kinit end_of_kernel s ≡ done t)
      × Holds end_of_kernel t (descending (pg_round_up end_of_kernel) (free_pages end_of_kernel))
unfolding kinit freerange
kinit-Holds end_of_kernel s positive fits empty =
    let (t, ran, held) =
      freerange_loop-Holds end_of_kernel (pg_round_up end_of_kernel) (free_pages end_of_kernel)
        (omega arith) (omega arith) (omega arith) (omega arith) (omega arith) (phystop / pgsize + 1)
        0 s (omega arith) (omega arith) (record { chain = empty; pages = tt; distinct = tt }) in
    (
      t,
      ap (λ p. freerange_loop end_of_kernel (phystop / pgsize + 1) p phystop s) (omega arith) ∙ ran,
      held,
    )
