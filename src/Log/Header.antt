-- ===== src/Log/Header.antt =====
-- The header block of the log: what write_head writes, read_head reads.
use model_lib.Base.{
  ℕ, zero, suc, ◌+◌, ◌≤◌, ◌<◌, ◌≡◌, arith, refl, List, length, get_or, set, length-set,
  get_or-set_self, get_or-set_ne, ◌∙◌,
}
use native.Mathlib.Decide.{ℕ_discrete}
use model_lib.Log.{Block, write_entries, read_entries}

-- The header block with `n` entries, over what the block held before.
abbrev pub header : ℕ → List ℕ → Block → Block
header n block d = write_entries n 0 block (set d 0 n)

length-write_entries :
    (k i : ℕ) (block : List ℕ) (d : Block) → length (write_entries k i block d) ≡ length d
unfolding write_entries
length-write_entries zero i block d = refl
length-write_entries (suc k) i block d =
    length-write_entries k (i + 1) block (set d (i + 1) (get_or block i 0))
    ∙ length-set d (i + 1) (get_or block i 0)

pub length-header : (n : ℕ) (block : List ℕ) (d : Block) → length (header n block d) ≡ length d
length-header n block d = length-write_entries n 0 block (set d 0 n) ∙ length-set d 0 n

-- The entries are written above the words that come before them.
write_entries_below :
    (k i j : ℕ) (block : List ℕ) (d : Block)
    → j ≤ i
    → get_or (write_entries k i block d) j 0 ≡ get_or d j 0
unfolding write_entries
write_entries_below zero i j block d h = refl
write_entries_below (suc k) i j block d h =
    write_entries_below k (i + 1) j block (set d (i + 1) (get_or block i 0)) (omega arith)
    ∙ get_or-set_ne d (i + 1) j (get_or block i 0) 0 (λ e. omega arith)

pub header-count :
    (n : ℕ) (block : List ℕ) (d : Block) → 0 < length d → get_or (header n block d) 0 0 ≡ n
header-count n block d h =
    write_entries_below n 0 0 block (set d 0 n) (omega arith) ∙ get_or-set_self d 0 n 0 h

write_entries-entry :
    (k i j : ℕ) (block : List ℕ) (d : Block)
    → i ≤ j
    → j < i + k
    → i + k + 1 ≤ length d
    → get_or (write_entries k i block d) (j + 1) 0 ≡ get_or block j 0
unfolding write_entries
write_entries-entry zero i j block d h l m = absurd (omega arith)
write_entries-entry (suc k) i j block d h l m = elim (ℕ_discrete i j) [
  | yes e ↦
      write_entries_below k (i + 1) (j + 1) block (set d (i + 1) (get_or block i 0)) (omega arith)
      ∙ rw e (get_or-set_self d (j + 1) (get_or block j 0) 0 (omega arith))
  | no ne ↦
      write_entries-entry k (i + 1) j block (set d (i + 1) (get_or block i 0)) (omega arith)
        (omega arith) (omega (arith, length-set d (i + 1) (get_or block i 0)))
]

pub header-entry :
    (n j : ℕ) (block : List ℕ) (d : Block)
    → j < n
    → n + 1 ≤ length d
    → get_or (header n block d) (j + 1) 0 ≡ get_or block j 0
header-entry n j block d h l =
    write_entries-entry n 0 j block (set d 0 n) (omega arith) (omega arith)
      (omega (arith, length-set d 0 n))

read_entries_below :
    (k i j : ℕ) (block : List ℕ) (d : Block)
    → j < i
    → get_or (read_entries k i d block) j 0 ≡ get_or block j 0
unfolding read_entries
read_entries_below zero i j block d h = refl
read_entries_below (suc k) i j block d h =
    read_entries_below k (i + 1) j (set block i (get_or d (i + 1) 0)) d (omega arith)
    ∙ get_or-set_ne block i j (get_or d (i + 1) 0) 0 (λ e. omega arith)

pub read_entries-entry :
    (k i j : ℕ) (block : List ℕ) (d : Block)
    → i ≤ j
    → j < i + k
    → i + k ≤ length block
    → get_or (read_entries k i d block) j 0 ≡ get_or d (j + 1) 0
unfolding read_entries
read_entries-entry zero i j block d h l m = absurd (omega arith)
read_entries-entry (suc k) i j block d h l m = elim (ℕ_discrete i j) [
  | yes e ↦
      read_entries_below k (i + 1) j (set block i (get_or d (i + 1) 0)) d (omega arith)
      ∙ rw e (get_or-set_self block j (get_or d (j + 1) 0) 0 (omega arith))
  | no ne ↦
      read_entries-entry k (i + 1) j (set block i (get_or d (i + 1) 0)) d (omega arith)
        (omega arith) (omega (arith, length-set block i (get_or d (i + 1) 0)))
]
