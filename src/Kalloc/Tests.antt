-- ===== src/Kalloc/Tests.antt =====
-- Runs of kernel/kalloc.c at concrete memories, and its theorems at them.
use model_lib.Base.{ℕ, ◌-◌, ◌≡◌, refl, [], ◌∷◌, arith}
use model_lib.Base.Outcome.{done}
use model_lib.Layout.{phystop, pg_round_up}
use model_lib.Kalloc.{Kmem, kfree, kinit, kalloc}
use model_lib.Kalloc.Chain.{Holds}
use model_lib.Kalloc.Refine.{kfree-Holds, Allocates, kalloc-Allocates}
use model_lib.Kalloc.Init.{descending, free_pages, kinit-Holds}

abbrev kernel_end : ℕ
kernel_end = 0x80021000

abbrev page : ℕ
page = 0x80022000

abbrev exhausted : Kmem
exhausted = record { mem = λ _. 0; freelist = 0 }

abbrev one_page : Kmem
one_page = record { mem = λ _. 0; freelist = page }

one_page-Holds : Holds kernel_end one_page (page ∷ [])
one_page-Holds = record { chain = omega arith; pages = omega arith; distinct = omega arith }

exhausted-Holds : Holds kernel_end exhausted []
exhausted-Holds = record { chain = refl; pages = tt; distinct = tt }

kalloc-page : (kalloc one_page).0 ≡ page
unfolding kalloc
kalloc-page = refl

kfree-Holds_example :
    (t : Kmem) × (kfree kernel_end page exhausted ≡ done t) × Holds kernel_end t (page ∷ [])
kfree-Holds_example =
    kfree-Holds kernel_end exhausted [] exhausted-Holds page (omega arith)
      (record { aligned = omega arith; above = omega arith; below = omega arith }) tt

kalloc-Allocates_example : Allocates kernel_end one_page (kalloc one_page) (page ∷ [])
kalloc-Allocates_example = kalloc-Allocates kernel_end one_page (page ∷ []) one_page-Holds

-- A kernel that leaves two whole pages and a part of a third.
kinit-Holds_example :
    (t : Kmem) × (kinit (phystop - 10000) exhausted ≡ done t)
    × Holds
        (phystop - 10000)
        t
        (descending (pg_round_up (phystop - 10000)) (free_pages (phystop - 10000)))
kinit-Holds_example = kinit-Holds (phystop - 10000) exhausted (omega arith) (omega arith) refl
