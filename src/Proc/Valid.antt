-- ===== src/Proc/Valid.antt =====
-- A well-formed process table: process ids are those of live entries, and are unique.
use model_lib.Base.{
  ℕ, ◌≤◌, ◌<◌, ◌≡◌, ◌≢◌, Bool, true, false, some, none, arith, not, ◌&&◌, refl, subst, sym, ap, ◌∙◌,
}
use native.Mathlib.Decide.{ℕ_discrete}
use model_lib.Proc.{Proc, ProcState, Procs, is_unused, is_zombie, nproc, set_proc}

-- Neither free nor exited.
abbrev pub is_live : ProcState → Bool
is_live st = not (is_unused st) && not (is_zombie st)

pub record IsValid (s : Procs) : Type 0 where
  pub free :
      (i : ℕ)
      → i < nproc
      → is_unused (s.table i).state ≡ true
      → ((s.table i).pid ≡ 0) × ((s.table i).parent ≡ none)
  pub taken : (i : ℕ) → i < nproc → is_unused (s.table i).state ≡ false → (s.table i).pid ≢ 0
  pub issued : (i : ℕ) → i < nproc → (s.table i).pid < s.nextpid
  pub unique :
      (i j : ℕ)
      → i < nproc
      → j < nproc
      → (s.table i).pid ≢ 0
      → (s.table i).pid ≡ (s.table j).pid
      → i ≡ j
  pub parents :
      (i q : ℕ)
      → i < nproc
      → (s.table i).parent ≡ some q
      → (q < nproc) × (is_live (s.table q).state ≡ true)
  pub init_in : s.initproc < nproc
  pub init_live : is_live (s.table s.initproc).state ≡ true

-- A change of an entry that keeps who it is and whether it lives.
pub record SameId (p q : Proc) : Type 0 where
  pub same_pid : q.pid ≡ p.pid
  pub same_parent : q.parent ≡ p.parent
  pub same_unused : is_unused q.state ≡ is_unused p.state
  pub same_zombie : is_zombie q.state ≡ is_zombie p.state

module _ (s t : Procs) (valid : IsValid s) (nextpid : t.nextpid ≡ s.nextpid)
    (initproc : t.initproc ≡ s.initproc) (same : (i : ℕ) → SameId (s.table i) (t.table i)) where
  pub SameId-IsValid : IsValid t
  SameId-IsValid = record {
    free = λ i h e. ground (arith, valid.free i h, same i);
    taken = λ i h e. ground (arith, valid.taken i h, same i);
    issued = λ i h. ground (arith, valid.issued i h, same i);
    unique = λ i j h k ne e. ground (arith, valid.unique i j h k, same i, same j);
    parents = λ i q h e. ground (arith, valid.parents i q h, same i, same q);
    init_in = ground (arith, valid.init_in);
    init_live = ground (arith, valid.init_live, same s.initproc);
  }

-- `t` differs from `s` in entry `i` at most, which is `p` there, and in the next process id.
pub record Changes (s t : Procs) (i : ℕ) (p : Proc) : Type 0 where
  pub here : t.table i ≡ p
  pub others : (j : ℕ) → j ≢ i → t.table j ≡ s.table j
  pub same_init : t.initproc ≡ s.initproc

pub Changes-set_proc : (s : Procs) (i : ℕ) (p : Proc) → Changes s (set_proc s i p) i p
Changes-set_proc s i p = record {
  here = ground arith;
  others = λ j ne. ground arith;
  same_init = refl;
}

module _ (s t : Procs) (i : ℕ) (p : Proc) (valid : IsValid s) (change : Changes s t i p) where
  SameId-Changes : SameId (s.table i) p → (j : ℕ) → SameId (s.table j) (t.table j)
  SameId-Changes same j = elim (ℕ_discrete j i) [
    | yes e ↦ ground (arith, same, change.here)
    | no ne ↦ ground (arith, change.others j ne)
  ]

  pub Changes-IsValid : t.nextpid ≡ s.nextpid → SameId (s.table i) p → IsValid t
  Changes-IsValid next same = SameId-IsValid s t valid next change.same_init (SameId-Changes same)

  -- A statement about an entry of `t`, from the changed entry and from the others of `s`.
  pick : (P : Proc → Type 0) (j : ℕ) → (j ≡ i → P p) → (j ≢ i → P (s.table j)) → P (t.table j)
  pick P j at_i elsewhere = elim (ℕ_discrete j i) [
    | yes e ↦ subst P (sym (ap t.table e ∙ change.here)) (at_i e)
    | no ne ↦ subst P (sym (change.others j ne)) (elsewhere ne)
  ]

  -- An entry that is free or has exited may be freed.
  pub freed-IsValid :
      p.pid ≡ 0
      → p.parent ≡ none
      → is_unused p.state ≡ true
      → is_live (s.table i).state ≡ false
      → s.nextpid ≤ t.nextpid
      → IsValid t
  freed-IsValid no_pid no_parent gone dead next = record {
    free = λ j h.
        pick (λ r. is_unused r.state ≡ true → (r.pid ≡ 0) × (r.parent ≡ none)) j
          (λ _ _. (no_pid, no_parent)) (λ _. valid.free j h);
    taken = λ j h.
        pick (λ r. is_unused r.state ≡ false → r.pid ≢ 0) j (λ _ u. cc) (λ _. valid.taken j h);
    issued = λ j h.
        pick (λ r. r.pid < t.nextpid) j (λ _. omega (arith, valid.issued j h))
          (λ _. omega (arith, valid.issued j h));
    unique = λ j k h l.
        pick (λ r. r.pid ≢ 0 → r.pid ≡ (t.table k).pid → j ≡ k) j (λ _ ne e. absurd (ne no_pid))
          (pick (λ r. j ≢ i → (s.table j).pid ≢ 0 → (s.table j).pid ≡ r.pid → j ≡ k) k
            (λ _ _ ne e. absurd (ne (e ∙ no_pid))) (λ _ _ ne e. valid.unique j k h l ne e));
    parents = λ j q h.
        pick (λ r. r.parent ≡ some q → (q < nproc) × (is_live (t.table q).state ≡ true)) j
          (λ _ e. cc)
          (λ _ e. (
            (valid.parents j q h e).0,
            pick (λ r. is_live r.state ≡ true) q (λ same. ground (arith, valid.parents j q h e))
                (λ _. (valid.parents j q h e).1),
          ));
    init_in = ground (arith, valid.init_in, change.same_init);
    init_live =
        subst (λ k. is_live (t.table k).state ≡ true) (sym change.same_init)
          (pick (λ r. is_live r.state ≡ true) s.initproc (λ same. ground (arith, valid.init_live))
            (λ _. valid.init_live));
  }

  -- A free entry may become a live process with a new id, under a live parent.
  pub created-IsValid :
      (cur : ℕ)
      → p.pid ≡ s.nextpid
      → p.parent ≡ some cur
      → is_live p.state ≡ true
      → is_unused (s.table i).state ≡ true
      → cur < nproc
      → is_live (s.table cur).state ≡ true
      → s.nextpid < t.nextpid
      → IsValid t
  created-IsValid cur new_pid child lives was_free cur_in cur_live next = record {
    free = λ j h.
        pick (λ r. is_unused r.state ≡ true → (r.pid ≡ 0) × (r.parent ≡ none)) j
          (λ _ u. ground arith) (λ _. valid.free j h);
    taken = λ j h.
        pick (λ r. is_unused r.state ≡ false → r.pid ≢ 0) j
          (λ _ u z. omega (arith, valid.issued j h)) (λ _. valid.taken j h);
    issued = λ j h.
        pick (λ r. r.pid < t.nextpid) j (λ _. omega arith) (λ _. omega (arith, valid.issued j h));
    unique = λ j k h l.
        pick (λ r. r.pid ≢ 0 → r.pid ≡ (t.table k).pid → j ≡ k) j
          (λ at ne.
            pick (λ r. p.pid ≡ r.pid → j ≡ k) k (λ at' _. at ∙ sym at')
              (λ _ e. absurd (omega (arith, valid.issued k l))))
          (λ _.
            pick (λ r. (s.table j).pid ≢ 0 → (s.table j).pid ≡ r.pid → j ≡ k) k
              (λ _ ne e. absurd (omega (arith, valid.issued j h)))
              (λ _ ne e. valid.unique j k h l ne e));
    parents = λ j q h.
        pick (λ r. r.parent ≡ some q → (q < nproc) × (is_live (t.table q).state ≡ true)) j
          (λ _ e.
            let same : cur ≡ q = cc in
            (
              subst (λ c. c < nproc) same cur_in,
              pick (λ r. is_live r.state ≡ true) q (λ _. lives)
                  (λ _. subst (λ c. is_live (s.table c).state ≡ true) same cur_live),
            ))
          (λ _ e. (
            (valid.parents j q h e).0,
            pick (λ r. is_live r.state ≡ true) q (λ _. lives) (λ _. (valid.parents j q h e).1),
          ));
    init_in = ground (arith, valid.init_in, change.same_init);
    init_live =
        subst (λ k. is_live (t.table k).state ≡ true) (sym change.same_init)
          (pick (λ r. is_live r.state ≡ true) s.initproc (λ _. lives) (λ _. valid.init_live));
  }
