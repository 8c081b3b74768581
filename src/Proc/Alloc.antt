-- ===== src/Proc/Alloc.antt =====
-- The ways in which allocproc and kfork of kernel/proc.c end.
use model_lib.Base.{
  ℕ, ◌+◌, ◌<◌, ◌≡◌, ◌≢◌, ◌⊎◌, inl, inr, true, false, Bool-cases, Option, none, some, arith, refl,
  update, Option-cases, subst, ap,
}
use native.Mathlib.Decide.{ℕ_discrete}
use model_lib.Base.Words.{minus_one, u32}
use model_lib.Proc.{
  Proc, ProcState, Procs, ForkMemory, is_unused, nproc, find_from, freeproc, allocpid, allocproc,
  allocproc_found, kfork, kfork_found, kfork_after, runnable,
}
use model_lib.Proc.Find.{Found, find_from-Found}
use model_lib.Proc.Valid.{Changes}

-- What the child of `parent` looks like in the entry that was `old`.
pub record IsChild (cur pid : ℕ) (parent old child : Proc) : Type 0 where
  pub child_pid : child.pid ≡ pid
  pub child_parent : child.parent ≡ some cur
  pub child_state : child.state ≡ runnable
  pub child_tracing : child.tracing ≡ parent.tracing
  pub child_size : child.sz ≡ parent.sz
  pub child_name : child.name ≡ parent.name
  pub child_cwd : child.cwd ≡ parent.cwd
  pub returns_zero : child.regs ≡ record (parent.regs) { a0 = 0 }
  pub child_killed : child.killed ≡ old.killed

module _ (m : ForkMemory) (cur : ℕ) (s : Procs) where
  abbrev pub search : Option ℕ
  search = find_from (λ p. is_unused p.state) s.table nproc 0

  -- The table after an allocation of entry `i` that succeeds.
  abbrev pub allocated : ℕ → Procs
  allocated i = record s {
    table = update s.table i (record (s.table i) {
      pid = s.nextpid;
      state = ProcState.used;
      trapframe = m.trapframe;
      pagetable = m.pagetable;
      tracing = 0;
    });
    nextpid = u32 (s.nextpid + 1);
  }

  allocproc-some :
      (i : ℕ)
      → search ≡ some i
      → m.trapframe ≢ 0
      → m.pagetable ≢ 0
      → allocproc m.trapframe m.pagetable s ≡ (some i, allocated i)
  unfolding allocproc allocproc_found allocpid
  allocproc-some i e htf hpt = rw (e, allocproc) (ground arith)

  kfork-some :
      (i : ℕ)
      → search ≡ some i
      → m.trapframe ≢ 0
      → m.pagetable ≢ 0
      → kfork m cur s ≡ kfork_found m cur i (allocated i)
  unfolding kfork
  kfork-some i e htf hpt = ap (kfork_after m cur) (allocproc-some i e htf hpt)

  -- What a fork into entry `i` that succeeds has done.
  pub record Forked (i : ℕ) (r : ℕ × Procs) : Type 0 where
    pub returns_pid : r.0 ≡ s.nextpid
    pub change : Changes s r.1 i (r.1.table i)
    pub next : r.1.nextpid ≡ u32 (s.nextpid + 1)
    pub child : IsChild cur s.nextpid (s.table cur) (s.table i) (r.1.table i)

  pub kfork_found-Forked :
      (i : ℕ) → m.copied ≡ true → i ≢ cur → Forked i (kfork_found m cur i (allocated i))
  unfolding kfork_found
  kfork_found-Forked i copied ne = record {
    returns_pid = ground arith;
    change = record { here = refl; others = λ j other. ground arith; same_init = ground arith };
    next = ground arith;
    child = ground arith;
  }

  -- What a fork that fails has done: -1 is returned, entries in use are unchanged, and free ones
  -- are free.
  pub record Failed (r : ℕ × Procs) : Type 0 where
    pub returns_error : r.0 ≡ minus_one
    pub kept : (j : ℕ) → is_unused (s.table j).state ≡ false → r.1.table j ≡ s.table j
    pub still_free :
        (j : ℕ) → is_unused (s.table j).state ≡ true → is_unused (r.1.table j).state ≡ true

  allocproc-none : search ≡ none → allocproc m.trapframe m.pagetable s ≡ (none, s)
  unfolding allocproc
  allocproc-none e = rw (e, allocproc) refl

  abbrev pub released : ℕ → Procs
  released i = record s {
    table = update s.table i (freeproc (s.table i));
    nextpid = u32 (s.nextpid + 1);
  }

  allocproc_no_memory :
      (i : ℕ)
      → search ≡ some i
      → (m.trapframe ≡ 0) ⊎ (m.pagetable ≡ 0)
      → allocproc m.trapframe m.pagetable s ≡ (none, released i)
  unfolding allocproc allocproc_found allocpid freeproc
  allocproc_no_memory i e h = rw (e, allocproc) (ground arith)

  pub kfork_not_copied :
      (i : ℕ)
      → m.copied ≡ false
      → is_unused (s.table i).state ≡ true
      → Failed (kfork_found m cur i (allocated i))
  unfolding kfork_found freeproc
  kfork_not_copied i failed free = ground arith

  pub released-Failed :
      (i : ℕ) → is_unused (s.table i).state ≡ true → Failed (minus_one, released i)
  unfolding freeproc
  released-Failed i free = record {
    returns_error = refl;
    kept = λ j taken. ground arith;
    still_free = λ j free'. ground arith;
  }

  abbrev pub Resources : Type 0
  Resources = (m.trapframe ≢ 0) × (m.pagetable ≢ 0) × (m.copied ≡ true)

  -- How a fork ends, and with what result.
  pub data ForkCase (r : ℕ × Procs) : Type 0 where
    full :
        ((j : ℕ) → j < nproc → is_unused (s.table j).state ≡ false)
        → r ≡ (minus_one, s)
        → ForkCase r
    no_memory :
        (i : ℕ)
        → Found (λ p. is_unused p.state) s.table nproc 0 (some i)
        → (m.trapframe ≡ 0) ⊎ (m.pagetable ≡ 0)
        → r ≡ (minus_one, released i)
        → ForkCase r
    not_copied :
        (i : ℕ)
        → Found (λ p. is_unused p.state) s.table nproc 0 (some i)
        → m.copied ≡ false
        → r ≡ kfork_found m cur i (allocated i)
        → ForkCase r
    forked :
        (i : ℕ)
        → Found (λ p. is_unused p.state) s.table nproc 0 (some i)
        → Resources
        → r ≡ kfork_found m cur i (allocated i)
        → ForkCase r

  kfork-ForkCase_at :
      (i : ℕ)
      → search ≡ some i
      → Found (λ p. is_unused p.state) s.table nproc 0 (some i)
      → ForkCase (kfork m cur s)
  unfolding kfork
  kfork-ForkCase_at i e found = elim (ℕ_discrete m.trapframe 0) [
    | yes z ↦ no_memory i found (inl z) (ap (kfork_after m cur) (allocproc_no_memory i e (inl z)))
    | no htf ↦ elim (ℕ_discrete m.pagetable 0) [
      | yes z ↦ no_memory i found (inr z) (ap (kfork_after m cur) (allocproc_no_memory i e (inr z)))
      | no hpt ↦ elim (Bool-cases m.copied) [
        | inl c ↦ forked i found (htf, hpt, c) (kfork-some i e htf hpt)
        | inr c ↦ not_copied i found c (kfork-some i e htf hpt)
      ]
    ]
  ]

  pub kfork-ForkCase : ForkCase (kfork m cur s)
  unfolding kfork
  kfork-ForkCase = elim (Option-cases search) [
    | inl e ↦
        full
          (λ j h.
            subst (Found (λ p. is_unused p.state) s.table nproc 0) e
              (find_from-Found (λ p. is_unused p.state) s.table nproc 0) j (omega arith) h)
          (ap (kfork_after m cur) (allocproc-none e))
    | inr (i, e) ↦ kfork-ForkCase_at i e (
        subst (Found (λ p. is_unused p.state) s.table nproc 0) e
          (find_from-Found (λ p. is_unused p.state) s.table nproc 0))
  ]
