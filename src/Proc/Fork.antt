-- ===== src/Proc/Fork.antt =====
-- What kfork of kernel/proc.c does, whether it succeeds or fails.
use model_lib.Base.{ℕ, ◌+◌, ◌^◌, ◌≤◌, ◌<◌, ◌≡◌, ◌⊎◌, inl, inr, true, false, arith, subst, sym, refl}
use native.Mathlib.Decide.{dec_lt}
use model_lib.Base.Words.{u32}
use model_lib.Proc.{Proc, Procs, ForkMemory, is_unused, nproc, kfork, kfork_found, freeproc}
use model_lib.Proc.Alloc.{
  Forked, Failed, ForkCase, full, no_memory, not_copied, forked, kfork-ForkCase, Resources,
  kfork_found-Forked, kfork_not_copied, released-Failed, allocated, released,
}
use model_lib.Proc.Valid.{IsValid, is_live, Changes, freed-IsValid, created-IsValid}

module _ (m : ForkMemory) (cur : ℕ) (s : Procs) where
  -- A fork with a free entry and enough memory succeeds, in the first free entry: it returns the
  -- next process id, and the child is runnable, has that id, the caller as its parent, the
  -- caller's tracing state, size, name, directory and registers, except that a0 is 0; no other
  -- entry changes.
  pub kfork-Forked :
      (j : ℕ)
      → j < nproc
      → is_unused (s.table j).state ≡ true
      → is_unused (s.table cur).state ≡ false
      → Resources m cur s
      → (i : ℕ) × (i ≤ j) × (is_unused (s.table i).state ≡ true) × Forked m cur s i (kfork m cur s)
  kfork-Forked j h free running (htf, hpt, copied) = go (kfork-ForkCase m cur s)
    where
      not_above : (i : ℕ) → ((k : ℕ) → 0 ≤ k → k < i → is_unused (s.table k).state ≡ false) → i ≤ j
      not_above i below = elim (dec_lt j i) [
        | yes lt ↦ let clash : is_unused (s.table j).state ≡ false = below j (omega arith) lt in cc
        | no ge ↦ omega arith
      ]

      go :
          {r : ℕ × Procs}
          → ForkCase m cur s r
          → (i : ℕ) × (i ≤ j) × (is_unused (s.table i).state ≡ true) × Forked m cur s i r
      go (full all e) = let clash : is_unused (s.table j).state ≡ false = all j h in cc
      go (no_memory i found (inl z) e) = absurd (htf z)
      go (no_memory i found (inr z) e) = absurd (hpt z)
      go (not_copied i found c e) = cc
      go (forked i found res e) = (
        i,
        not_above i found.3,
        found.2,
        subst (Forked m cur s i) (sym e)
            (kfork_found-Forked m cur s i copied (λ same. different i same found.2)),
      )
        where
          different : (i : ℕ) → i ≡ cur → is_unused (s.table i).state ≡ true → ⊥
          different i same free' = ground arith

  -- A fork without a free entry, or without memory for the trapframe, the page table or the
  -- copy, returns -1; the entries in use are unchanged and the free ones are free.
  pub kfork-Failed :
      ((j : ℕ) → j < nproc → is_unused (s.table j).state ≡ false)
        ⊎ (m.trapframe ≡ 0)
        ⊎ (m.pagetable ≡ 0)
        ⊎ (m.copied ≡ false)
      → Failed m cur s (kfork m cur s)
  kfork-Failed h = go (kfork-ForkCase m cur s)
    where
      go : {r : ℕ × Procs} → ForkCase m cur s r → Failed m cur s r
      go (full all e) =
          subst (Failed m cur s) (sym e)
            (record { returns_error = refl; kept = λ j taken. refl; still_free = λ j free. free })
      go (no_memory i found z e) =
          subst (Failed m cur s) (sym e) (released-Failed m cur s i found.2)
      go (not_copied i found c e) =
          subst (Failed m cur s) (sym e) (kfork_not_copied m cur s i c found.2)
      go (forked i found res e) = elim h [
        | inl all ↦
            let clash : is_unused (s.table i).state ≡ false = all i (omega arith) in
            let free : is_unused (s.table i).state ≡ true = found.2 in cc
        | inr (inl z) ↦ absurd (res.0 z)
        | inr (inr (inl z)) ↦ absurd (res.1 z)
        | inr (inr (inr c)) ↦ let copied : m.copied ≡ true = res.2 in cc
      ]

  -- A fork by a live process keeps the table well-formed, whether it succeeds or not, while
  -- process ids do not wrap.
  pub kfork-IsValid :
      IsValid s
      → cur < nproc
      → is_live (s.table cur).state ≡ true
      → s.nextpid + 1 < 2 ^ 32
      → IsValid (kfork m cur s).1
  unfolding freeproc kfork_found
  kfork-IsValid valid cur_in lives small = go (kfork-ForkCase m cur s)
    where
      freed :
          (i : ℕ) (t : Procs) (q : Proc)
          → is_unused (s.table i).state ≡ true
          → Changes s t i (freeproc q)
          → t.nextpid ≡ u32 (s.nextpid + 1)
          → IsValid t
      freed i t q free change next =
          freed-IsValid s t i (freeproc q) valid change refl refl refl (ground arith) (omega arith)

      go : {r : ℕ × Procs} → ForkCase m cur s r → IsValid r.1
      go (full all e) = subst (λ r. IsValid r.1) (sym e) valid
      go (no_memory i found z e) =
          subst (λ r. IsValid r.1) (sym e)
            (freed i (released m cur s i) (s.table i) found.2
              (record { here = ground arith; others = λ j ne. ground arith; same_init = refl })
              refl)
      go (not_copied i found c e) =
          subst (λ r. IsValid r.1) (sym e)
            (freed i _ ((allocated m cur s i).table i) found.2
              (record {
                here = ground arith;
                others = λ j ne. ground arith;
                same_init = ground arith;
              })
              (ground arith))
      go (forked i found res e) =
          let done_ = kfork_found-Forked m cur s i res.2 (λ same. ground (arith, found.2)) in
          subst (λ r. IsValid r.1) (sym e)
            (created-IsValid s _ i _ valid done_.change cur done_.child.child_pid
              done_.child.child_parent (ground (arith, done_.child)) found.2 cur_in lives
              (omega (arith, done_.next)))
