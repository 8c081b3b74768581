-- ===== src/Kalloc/Refine.antt =====
-- kalloc and kfree of kernel/kalloc.c against the list of free pages.
use model_lib.Base.{
  ℕ, ◌+◌, ◌%◌, ◌≤◌, ◌<◌, ◌≡◌, ◌≢◌, refl, ◌⊎◌, ◌↔◌, List, [], ◌∷◌, arith, update, update_self, subst,
  sym,
}
use model_lib.Base.Outcome.{done, panic}
use model_lib.Layout.{pgsize, phystop}
use model_lib.Kalloc.{Kmem, fill_page, kfree, kalloc}
use model_lib.Kalloc.Chain.{
  IsPage, Chain, Absent, Holds, Chain-Agree, Agree-fill_page, Agree-update,
}

-- kfree panics exactly at an address that is not page-aligned, lies below the kernel's end, or
-- lies at PHYSTOP or above.
pub kfree-panics_iff :
    (end_of_kernel pa : ℕ) (s : Kmem)
    → (kfree end_of_kernel pa s ≡ panic "kfree")
      ↔ ((pa % pgsize ≢ 0) ⊎ (pa < end_of_kernel) ⊎ (phystop ≤ pa))
unfolding kfree
kfree-panics_iff end_of_kernel pa s = (λ h. ground arith, λ h. ground arith)

module _ (end_of_kernel : ℕ) (s : Kmem) (free : List ℕ) (holds : Holds end_of_kernel s free) where
  -- Freeing a page that is not free returns, and puts it in front of the list of free pages.
  pub kfree-Holds :
      (pa : ℕ)
      → pa ≢ 0
      → IsPage end_of_kernel pa
      → Absent pa free
      → (t : Kmem) × (kfree end_of_kernel pa s ≡ done t) × Holds end_of_kernel t (pa ∷ free)
  unfolding kfree
  kfree-Holds pa ne page ha = (
    record { mem = update (fill_page pa 1 s.mem) pa s.freelist; freelist = pa },
    ground (arith, page),
    record {
      chain = (
        refl,
        ne,
        rw (update_self (fill_page pa 1 s.mem) pa s.freelist) (
            Chain-Agree s.mem _ s.freelist free
              (Agree-update end_of_kernel pa page.aligned 1 s.freelist s.mem free holds.pages ha)
              holds.chain),
      );
      pages = (page, holds.pages);
      distinct = (ha, holds.distinct);
    },
  )

-- What kalloc does when the free pages are those of the list: with none left it returns 0 and
-- changes nothing; otherwise it returns the first, which is then no longer free, and changes no
-- word outside that page.
abbrev pub Allocates : ℕ → Kmem → ℕ × Kmem → List ℕ → Type 0
Allocates end_of_kernel s r [] = r ≡ (0, s)
Allocates end_of_kernel s r (x ∷ xs) =
    (r.0 ≡ x)
    × (x ≢ 0)
    × IsPage end_of_kernel x
    × Absent x xs
    × Holds end_of_kernel r.1 xs
    × ((a : ℕ) → (a < x) ⊎ (x + pgsize ≤ a) → r.1.mem a ≡ s.mem a)

module _ (end_of_kernel : ℕ) (s : Kmem) where
  -- kalloc keeps the free list, and does what `Allocates` says of it, empty or not.
  pub kalloc-Allocates :
      (free : List ℕ) → Holds end_of_kernel s free → Allocates end_of_kernel s (kalloc s) free
  unfolding kalloc
  kalloc-Allocates [] holds = ground (arith, holds.chain)
  kalloc-Allocates (x ∷ xs) holds = rw taken (
    holds.chain.0,
    holds.chain.1,
    holds.pages.0,
    holds.distinct.0,
    record { chain = rest; pages = holds.pages.1; distinct = holds.distinct.1 },
    λ a h. ground (arith, holds.chain),
  )
    where
      taken :
          kalloc s
          ≡ (s.freelist, record { mem = fill_page s.freelist 5 s.mem; freelist = s.mem s.freelist })
      taken = ground (arith, holds.chain)

      rest : Chain (fill_page s.freelist 5 s.mem) (s.mem s.freelist) xs
      rest =
          subst (λ p. Chain (fill_page p 5 s.mem) (s.mem p) xs) (sym holds.chain.0)
            (Chain-Agree s.mem _ (s.mem x) xs
              (Agree-fill_page end_of_kernel x holds.pages.0.aligned 5 s.mem xs holds.pages.1
                holds.distinct.0)
              holds.chain.2)
