-- ===== src/Kalloc/Chain.antt =====
-- The pages that the free list of kernel/kalloc.c runs through.
use model_lib.Base.{ℕ, ◌%◌, ◌≤◌, ◌<◌, ◌≡◌, ◌≢◌, List, [], ◌∷◌, arith, update, update_ne, ◌∙◌}
use model_lib.Layout.{pgsize, phystop}
use model_lib.Kalloc.{Kmem, fill_page}

-- What kfree accepts: a page-aligned address between the kernel's end and PHYSTOP.
pub record IsPage (end_of_kernel pa : ℕ) : Type 0 where
  pub aligned : pa % pgsize ≡ 0
  pub above : end_of_kernel ≤ pa
  pub below : pa < phystop

-- From the pointer `p` the links lead through the pages of the list, in its order, and end at 0.
abbrev pub Chain : (ℕ → ℕ) → ℕ → List ℕ → Type 0
Chain mem p [] = p ≡ 0
Chain mem p (x ∷ xs) = (p ≡ x) × (x ≢ 0) × Chain mem (mem x) xs

abbrev pub Absent : ℕ → List ℕ → Type 0
Absent a [] = Unit
Absent a (x ∷ xs) = (a ≢ x) × Absent a xs

abbrev pub Distinct : List ℕ → Type 0
Distinct [] = Unit
Distinct (x ∷ xs) = Absent x xs × Distinct xs

abbrev pub AllPages : ℕ → List ℕ → Type 0
AllPages end_of_kernel [] = Unit
AllPages end_of_kernel (x ∷ xs) = IsPage end_of_kernel x × AllPages end_of_kernel xs

-- The allocator's state stands for the list `free` of free pages.
pub record Holds (end_of_kernel : ℕ) (s : Kmem) (free : List ℕ) : Type 0 where
  pub chain : Chain s.mem s.freelist free
  pub pages : AllPages end_of_kernel free
  pub distinct : Distinct free

-- The words where the links of the listed pages stand are the same in two memories.
abbrev pub Agree : (ℕ → ℕ) → (ℕ → ℕ) → List ℕ → Type 0
Agree mem mem' [] = Unit
Agree mem mem' (x ∷ xs) = (mem' x ≡ mem x) × Agree mem mem' xs

pub Chain-Agree :
    (mem mem' : ℕ → ℕ) (p : ℕ) (free : List ℕ)
    → Agree mem mem' free
    → Chain mem p free
    → Chain mem' p free
Chain-Agree mem mem' p [] g h = h
Chain-Agree mem mem' p (x ∷ xs) g h = (h.0, h.1, Chain-Agree mem mem' (mem' x) xs g.1 (rw g.0 h.2))

-- The start of a page is in no other page.
fill_page-other :
    (pa c x : ℕ) (mem : ℕ → ℕ)
    → pa % pgsize ≡ 0
    → x % pgsize ≡ 0
    → pa ≢ x
    → fill_page pa c mem x ≡ mem x
fill_page-other pa c x mem hp hx ne = ground arith

module _ (end_of_kernel : ℕ) (pa : ℕ) (aligned : pa % pgsize ≡ 0) where
  -- Filling a page that is not free leaves the links of the free ones.
  pub Agree-fill_page :
      (c : ℕ) (mem : ℕ → ℕ) (free : List ℕ)
      → AllPages end_of_kernel free
      → Absent pa free
      → Agree mem (fill_page pa c mem) free
  Agree-fill_page c mem [] hs ha = tt
  Agree-fill_page c mem (x ∷ xs) hs ha =
      (fill_page-other pa c x mem aligned hs.0.aligned ha.0, Agree-fill_page c mem xs hs.1 ha.1)

  -- So does filling it and writing its first word.
  pub Agree-update :
      (c v : ℕ) (mem : ℕ → ℕ) (free : List ℕ)
      → AllPages end_of_kernel free
      → Absent pa free
      → Agree mem (update (fill_page pa c mem) pa v) free
  Agree-update c v mem [] hs ha = tt
  Agree-update c v mem (x ∷ xs) hs ha = (
    update_ne (fill_page pa c mem) pa x v ha.0
        ∙ fill_page-other pa c x mem aligned hs.0.aligned ha.0,
    Agree-update c v mem xs hs.1 ha.1,
  )
