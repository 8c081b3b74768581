-- ===== src/Proc/Kill.antt =====
-- kkill of kernel/proc.c, and what it does to a free entry.
use model_lib.Base.{
  ℕ, ◌≤◌, ◌<◌, ◌≡◌, ◌≢◌, Bool, true, false, some, arith, refl, ◌==◌, inl, inr, subst, sym, ◌∙◌,
  Option-cases, Bool-cases, ap,
}
use native.Mathlib.Decide.{dec_lt, ℕ_discrete}
use model_lib.Base.Words.{minus_one}
use model_lib.Proc.{
  Proc, Procs, ForkMemory, is_unused, is_sleeping, nproc, find_from, kkill, kkill_found, kfork,
}
use model_lib.Proc.Find.{Found, find_from-Found}
use model_lib.Proc.Valid.{IsValid, SameId}
use model_lib.Proc.Alloc.{Resources}
use model_lib.Proc.Fork.{kfork-Forked}

module _ (pid : ℕ) (s : Procs) where
  abbrev has_pid : Proc → Bool
  has_pid p = p.pid == pid

  -- Entry `i` has been marked, and woken if it slept.
  pub record Killed (i : ℕ) (t : Procs) : Type 0 where
    pub marked : (t.table i).killed ≡ 1
    pub awake : is_sleeping (t.table i).state ≡ false
    pub same : SameId (s.table i) (t.table i)
    pub others : (j : ℕ) → j ≢ i → t.table j ≡ s.table j
    pub same_next : t.nextpid ≡ s.nextpid
    pub same_init : t.initproc ≡ s.initproc

  kkill_found-Killed : (i : ℕ) → Killed i (kkill_found i s)
  unfolding kkill_found
  kkill_found-Killed i = record {
    marked = ground arith;
    awake = ground arith;
    same = ground arith;
    others = λ j ne. ground arith;
    same_next = refl;
    same_init = refl;
  }

  -- How kkill ends: without an entry of that id, or with the first such entry killed.
  pub data KillCase (r : ℕ × Procs) : Type 0 where
    no_such : ((j : ℕ) → j < nproc → (s.table j).pid ≢ pid) → r ≡ (minus_one, s) → KillCase r
    killed_first :
        (i : ℕ)
        → i < nproc
        → (s.table i).pid ≡ pid
        → ((j : ℕ) → j < i → (s.table j).pid ≢ pid)
        → r.0 ≡ 0
        → Killed i r.1
        → KillCase r

  -- kkill either finds no entry with the id, returns -1 and changes nothing, or it returns 0,
  -- marks the first entry with the id as killed, wakes it if it sleeps, and changes no other.
  pub kkill-KillCase : KillCase (kkill pid s)
  unfolding kkill
  kkill-KillCase = elim (Option-cases (find_from has_pid s.table nproc 0)) [
    | inl e ↦
        no_such
          (λ j h same.
            miss j (subst (Found has_pid s.table nproc 0) e found j (omega arith) h) same)
          (rw (e, kkill) refl)
    | inr (i, e) ↦ hit i e (subst (Found has_pid s.table nproc 0) e found)
  ]
    where
      found : Found has_pid s.table nproc 0 (find_from has_pid s.table nproc 0)
      found = find_from-Found has_pid s.table nproc 0

      miss : (j : ℕ) → has_pid (s.table j) ≡ false → (s.table j).pid ≢ pid
      miss j e same = ground arith

      hit :
          (i : ℕ)
          → find_from has_pid s.table nproc 0 ≡ some i
          → Found has_pid s.table nproc 0 (some i)
          → KillCase (kkill pid s)
      hit i e f =
          let result : kkill pid s ≡ (0, kkill_found i s) = rw (e, kkill) refl in
          subst KillCase (sym result) (
            killed_first i (omega arith) (ground arith) (λ j h. miss j (f.3 j (omega arith) h)) refl
              (kkill_found-Killed i))

-- kkill(0) marks a free entry, if there is one: it returns 0, and the next process that is
-- forked is killed from its birth, while the table is well-formed.
pub kkill-zero :
    (m : ForkMemory) (cur j : ℕ) (s : Procs)
    → IsValid s
    → j < nproc
    → is_unused (s.table j).state ≡ true
    → is_unused (s.table cur).state ≡ false
    → cur < nproc
    → Resources m cur s
    → let t = (kkill 0 s).1 in
      ((kkill 0 s).0 ≡ 0)
      × ((i : ℕ) × (is_unused (s.table i).state ≡ true)
          × (((kfork m cur t).1.table i).pid ≡ s.nextpid)
          × (((kfork m cur t).1.table i).killed ≡ 1))
kkill-zero m cur j s valid h free running cur_in res = go (kkill-KillCase 0 s)
  where
    go :
        {r : ℕ × Procs}
        → KillCase 0 s r
        → (r.0 ≡ 0)
          × ((i : ℕ) × (is_unused (s.table i).state ≡ true)
              × (((kfork m cur r.1).1.table i).pid ≡ s.nextpid)
              × (((kfork m cur r.1).1.table i).killed ≡ 1))
    go (no_such all e) = absurd (all j h (valid.free j h free).0)
    go {r} (killed_first k k_in zero_pid before e x) =
        let (i, i_le, i_free, f) =
          kfork-Forked m cur r.1 k k_in (x.same.same_unused ∙ k_free) (still_running x) res in
        let first : i ≡ k = is_first x i i_le i_free in
        (
          e,
          (
            i,
            subst (λ a. is_unused (s.table a).state ≡ true) (sym first) k_free,
            f.child.child_pid ∙ x.same_next,
            f.child.child_killed ∙ ap (λ a. (r.1.table a).killed) first ∙ x.marked,
          ),
        )
      where
        k_free : is_unused (s.table k).state ≡ true
        k_free = elim (Bool-cases (is_unused (s.table k).state)) [
          | inl u ↦ u
          | inr u ↦ absurd (valid.taken k k_in u zero_pid)
        ]

        still_running : Killed 0 s k r.1 → is_unused (r.1.table cur).state ≡ false
        still_running x = elim (ℕ_discrete cur k) [
          | yes same ↦ ground (arith, k_free)
          | no other ↦ ground (arith, x.others cur other)
        ]

        is_first : Killed 0 s k r.1 → (i : ℕ) → i ≤ k → is_unused (r.1.table i).state ≡ true → i ≡ k
        is_first x i i_le i_free = elim (dec_lt i k) [
          | yes lt ↦ absurd (
              before i lt
                (valid.free i (omega arith) (ground (arith, x.others i (λ z. omega arith)))).0)
          | no ge ↦ omega arith
        ]
