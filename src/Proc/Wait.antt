-- ===== src/Proc/Wait.antt =====
-- kwait of kernel/proc.c: one pass over the table.
use model_lib.Base.{
  ℕ, zero, suc, ◌+◌, ◌≤◌, ◌<◌, ◌≡◌, ◌≢◌, ◌⊎◌, Bool, true, false, ◌&&◌, ◌||◌, some, arith, refl, inl,
  inr, subst, Bool-cases, range_cons,
}
use native.Mathlib.Decide.{ℕ_discrete}
use model_lib.Base.Words.{minus_one}
use model_lib.Proc.{
  Proc, Procs, is_zombie, is_parent, nproc, freeproc, set_proc, WaitScan, reap, waiting,
  scan_children, WaitResult, returned, sleeps, kwait_pass,
}
use model_lib.Proc.Valid.{IsValid, Changes-set_proc, freed-IsValid}

-- An entry that wait() may collect.
abbrev is_done : ℕ → Proc → Bool
is_done cur p = is_parent cur p.parent && is_zombie p.state

or_false : (a b : Bool) → (a || b) ≡ false → (a ≡ false) × (b ≡ false)
or_false a b h = ground arith

or_true : (a b : Bool) → (a || b) ≡ true → (a ≡ true) ⊎ (b ≡ true)
or_true true b h = inl refl
or_true false b h = inr h

module _ (cur : ℕ) (t : ℕ → Proc) where
  -- What a scan of `n` entries from index `i` on finds.
  abbrev Scanned : ℕ → ℕ → Bool → WaitScan → Type 0
  Scanned n i before (reap k) = (i ≤ k) × (k < i + n) × (is_done cur (t k) ≡ true)
  Scanned n i before (waiting havekids) =
      ((j : ℕ) → i ≤ j → j < i + n → is_done cur (t j) ≡ false)
      × (havekids ≡ false
          → (before ≡ false) × ((j : ℕ) → i ≤ j → j < i + n → is_parent cur (t j).parent ≡ false))
      × (havekids ≡ true
          → (before ≡ true)
            ⊎ ((j : ℕ) × (i ≤ j) × (j < i + n) × (is_parent cur (t j).parent ≡ true)))

  Scanned-later :
      (n i : ℕ) (before : Bool) (w : WaitScan)
      → is_done cur (t i) ≡ false
      → Scanned n (i + 1) (before || is_parent cur (t i).parent) w
      → Scanned (suc n) i before w
  Scanned-later n i before (reap k) miss h = (omega arith, omega arith, h.2)
  Scanned-later n i before (waiting havekids) miss h = (
    range_cons (λ j. is_done cur (t j) ≡ false) i n miss h.0,
    λ none_found.
        let (not_before, later) = h.1 none_found in
        let (not_there, not_here) = or_false before _ not_before in
        (not_there, range_cons (λ j. is_parent cur (t j).parent ≡ false) i n not_here later),
    λ found. at_or_later (h.2 found),
  )
    where
      at_or_later :
          ((before || is_parent cur (t i).parent) ≡ true)
            ⊎ ((j : ℕ) × (i + 1 ≤ j) × (j < i + 1 + n) × (is_parent cur (t j).parent ≡ true))
          → (before ≡ true)
            ⊎ ((j : ℕ) × (i ≤ j) × (j < i + suc n) × (is_parent cur (t j).parent ≡ true))
      at_or_later (inl e) = elim (or_true before _ e) [
        | inl there ↦ inl there
        | inr here ↦ inr (i, omega arith, omega arith, here)
      ]
      at_or_later (inr (j, p, q, child)) = inr (j, omega arith, omega arith, child)

  scan_children-Scanned :
      (n i : ℕ) (before : Bool) → Scanned n i before (scan_children cur t n i before)
  unfolding scan_children
  scan_children-Scanned zero i before =
      (λ j p q. absurd (omega arith), λ e. (e, λ j p q. absurd (omega arith)), λ e. inl e)
  scan_children-Scanned (suc n) i before = elim (Bool-cases (is_done cur (t i))) [
    | inl hit ↦ rw hit (omega arith, omega arith, hit)
    | inr miss ↦ rw miss (Scanned-later n i before _ miss (scan_children-Scanned n (i + 1) _))
  ]

module _ (cur address : ℕ) (copied : Bool) (s : Procs) where
  -- A child that has exited, by its index.
  abbrev pub IsDone : ℕ → Type 0
  IsDone k = (k < nproc) × ((s.table k).parent ≡ some cur) × (is_zombie (s.table k).state ≡ true)

  abbrev pub NoneDone : Type 0
  NoneDone =
      (k : ℕ) → k < nproc → (s.table k).parent ≡ some cur → is_zombie (s.table k).state ≡ false

  abbrev pub NoChild : Type 0
  NoChild = (k : ℕ) → k < nproc → (s.table k).parent ≢ some cur

  abbrev pub HasChild : Type 0
  HasChild = (k : ℕ) × (k < nproc) × ((s.table k).parent ≡ some cur)

  -- How one pass of kwait ends.
  pub data WaitCase (r : WaitResult) : Type 0 where
    collected :
        (k : ℕ)
        → IsDone k
        → (address ≡ 0) ⊎ (copied ≡ true)
        → r ≡ returned (s.table k).pid (set_proc s k (freeproc (s.table k)))
        → WaitCase r
    bad_address :
        (k : ℕ) → IsDone k → address ≢ 0 → copied ≡ false → r ≡ returned minus_one s → WaitCase r
    gives_up :
        NoneDone → NoChild ⊎ ((s.table cur).killed ≢ 0) → r ≡ returned minus_one s → WaitCase r
    blocks : NoneDone → HasChild → (s.table cur).killed ≡ 0 → r ≡ sleeps → WaitCase r

  parent_of : (k : ℕ) → is_parent cur (s.table k).parent ≡ true → (s.table k).parent ≡ some cur
  parent_of k h = ground arith

  not_parent_of : (k : ℕ) → is_parent cur (s.table k).parent ≡ false → (s.table k).parent ≢ some cur
  not_parent_of k h e = ground arith

  none_done : ((j : ℕ) → 0 ≤ j → j < 0 + nproc → is_done cur (s.table j) ≡ false) → NoneDone
  none_done all k h mine = ground (arith, all k)

  child :
      (false ≡ true)
        ⊎ ((j : ℕ) × (0 ≤ j) × (j < 0 + nproc) × (is_parent cur (s.table j).parent ≡ true))
      → HasChild
  child (inl e) = cc
  child (inr (j, low, high, mine)) = (j, omega arith, parent_of j mine)

  after_reap :
      (k : ℕ)
      → scan_children cur s.table nproc 0 false ≡ reap k
      → Scanned cur s.table nproc 0 false (reap k)
      → WaitCase (kwait_pass cur address copied s)
  unfolding kwait_pass freeproc
  after_reap k e found = elim (ℕ_discrete address 0) [
    | yes z ↦ collected k (done_at k found) (inl z) (rw (e, kwait_pass) (ground arith))
    | no ne ↦ elim (Bool-cases copied) [
      | inl c ↦ collected k (done_at k found) (inr c) (rw (e, kwait_pass) (ground arith))
      | inr c ↦ bad_address k (done_at k found) ne c (rw (e, kwait_pass) (ground arith))
    ]
  ]
    where
      done_at : (k : ℕ) → Scanned cur s.table nproc 0 false (reap k) → IsDone k
      done_at k (low, high, hit) = (omega arith, ground arith, ground arith)

  after_scan :
      (havekids : Bool)
      → scan_children cur s.table nproc 0 false ≡ waiting havekids
      → Scanned cur s.table nproc 0 false (waiting havekids)
      → WaitCase (kwait_pass cur address copied s)
  unfolding kwait_pass
  after_scan false e found =
      gives_up (none_done found.0)
        (inl (λ k h. not_parent_of k ((found.1 refl).1 k (omega arith) h)))
        (rw (e, kwait_pass) (ground arith))
  after_scan true e found = elim (ℕ_discrete (s.table cur).killed 0) [
    | no ne ↦ gives_up (none_done found.0) (inr ne) (rw (e, kwait_pass) (ground arith))
    | yes z ↦
        blocks (none_done found.0) (child (found.2 refl)) z (rw (e, kwait_pass) (ground arith))
  ]

  -- One pass of kwait collects a child that has exited, if there is one: it returns the child's
  -- id and frees the entry, or -1 with the table unchanged if the status cannot be copied out.
  -- Without such a child it returns -1 if there is no child at all or the caller is killed, and
  -- goes to sleep otherwise.
  pub kwait_pass-WaitCase : WaitCase (kwait_pass cur address copied s)
  kwait_pass-WaitCase =
      go (scan_children cur s.table nproc 0 false) refl
        (scan_children-Scanned cur s.table nproc 0 false)
    where
      go :
          (w : WaitScan)
          → scan_children cur s.table nproc 0 false ≡ w
          → Scanned cur s.table nproc 0 false (scan_children cur s.table nproc 0 false)
          → WaitCase (kwait_pass cur address copied s)
      go (reap k) e found = after_reap k e (subst (Scanned cur s.table nproc 0 false) e found)
      go (waiting havekids) e found =
          after_scan havekids e (subst (Scanned cur s.table nproc 0 false) e found)

  -- A pass of kwait that returns keeps the table well-formed.
  pub kwait_pass-IsValid :
      (pid : ℕ) {t : Procs}
      → IsValid s
      → kwait_pass cur address copied s ≡ returned pid t
      → IsValid t
  unfolding freeproc
  kwait_pass-IsValid pid {t} valid e = go kwait_pass-WaitCase
    where
      at : (u : Procs) (v : ℕ) → kwait_pass cur address copied s ≡ returned v u → u ≡ t
      at u v e' = cc

      go : WaitCase (kwait_pass cur address copied s) → IsValid t
      go (collected k is_done _ e') = subst IsValid (at _ _ e') (
          freed-IsValid s (set_proc s k (freeproc (s.table k))) k (freeproc (s.table k)) valid
            (Changes-set_proc s k (freeproc (s.table k))) refl refl refl (ground (arith, is_done))
            (omega arith))
      go (bad_address k _ _ _ e') = subst IsValid (at _ _ e') valid
      go (gives_up _ _ e') = subst IsValid (at _ _ e') valid
      go (blocks _ _ _ e') = cc
