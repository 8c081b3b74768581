-- ===== src/Proc/Exit.antt =====
-- kexit of kernel/proc.c.
use model_lib.Base.{
  ℕ, ◌<◌, ◌≡◌, ◌≢◌, ◌⊎◌, true, some, none, Option, arith, if◌then◌else◌, Bool-cases, inl, inr, sym,
  ◌∙◌, ap,
}
use native.Mathlib.Decide.{ℕ_discrete}
use model_lib.Base.Outcome.{done, panic}
use model_lib.Proc.{
  Procs, is_unused, is_parent, nproc, set_proc, wakeup, reparent, addr_of, kexit, exit_closed,
  close_files, nofile, zombie, sleeping,
}
use model_lib.Proc.Wake.{
  Woken, SameContent, wakeup-Woken, wakeup-same, wakeup-awake, reparent-same, reparent-Woken,
  reparent-parent,
}
use model_lib.Proc.Valid.{IsValid, is_live}

-- The process has no open files and no directory.
pub record Closed (cur : ℕ) (t : Procs) : Type 0 where
  pub no_files : (fd : ℕ) → fd < nofile → (t.table cur).ofile fd ≡ none
  pub no_cwd : (t.table cur).cwd ≡ none

module _ (addr : ℕ → ℕ) (cur status : ℕ) (s : Procs) where
  -- The table when the process with index `cur` has exited with the status.
  pub record Exited (t : Procs) : Type 0 where
    pub is_zombie_now : (t.table cur).state ≡ zombie
    pub same_pid : (j : ℕ) → (t.table j).pid ≡ (s.table j).pid
    pub has_status : (t.table cur).xstate ≡ status
    pub same_content : SameContent (s.table cur) (t.table cur)
    pub same_killed : (t.table cur).killed ≡ (s.table cur).killed
    pub same_chan : (t.table cur).chan ≡ (s.table cur).chan
    pub others : (j : ℕ) → j ≢ cur → Woken (s.table j) (t.table j)
    pub adopted :
        (j : ℕ)
        → j < nproc
        → (t.table j).parent
          ≡ (if is_parent cur (s.table j).parent then some s.initproc else (s.table j).parent)
    pub same_init : t.initproc ≡ s.initproc
    pub same_next : t.nextpid ≡ s.nextpid
    pub parent_awake :
        (q : ℕ)
        → q < nproc
        → q ≢ cur
        → (s.table cur).parent ≡ some q
        → (t.table q).chan ≡ addr q
        → (t.table q).state ≢ sleeping

  exit_closed-Exited : cur ≢ s.initproc → cur < nproc → Exited (exit_closed addr cur status s)
  unfolding exit_closed
  exit_closed-Exited ne cur_in = record {
    is_zombie_now = ground arith;
    same_pid = λ j. ground (arith, woken j, rewoken j);
    has_status = ground arith;
    same_content = record {
      same_sz = ground (arith, kept.same_sz, rekept.same_sz);
      same_pagetable = ground (arith, kept.same_pagetable, rekept.same_pagetable);
      same_trapframe = ground (arith, kept.same_trapframe, rekept.same_trapframe);
      same_regs = ground (arith, kept.same_regs, rekept.same_regs);
      same_name = ground (arith, kept.same_name, rekept.same_name);
      same_tracing = ground (arith, kept.same_tracing, rekept.same_tracing);
    };
    same_killed = ground (arith, woken cur, rewoken cur);
    same_chan = ground (arith, woken cur, rewoken cur);
    others = λ j other. ground (arith, woken j, rewoken j);
    adopted = λ j j_in. ground (arith, reparent-parent addr cur cur s j j_in ne, again j);
    same_init = ground (arith, same, again cur);
    same_next = ground (arith, same, again cur);
    parent_awake =
        λ q q_in other child slept st. ground (arith, awake q q_in other child, st, slept);
  }
    where
      s1 : Procs
      s1 = reparent addr cur cur s

      chan : ℕ
      chan = addr_of addr (s1.table cur).parent

      same : (s1.initproc ≡ s.initproc) × (s1.nextpid ≡ s.nextpid)
      same = reparent-same addr cur cur s

      woken : (j : ℕ) → Woken (s.table j) (s1.table j)
      woken j = reparent-Woken addr cur cur s j

      rewoken : (j : ℕ) → Woken (s1.table j) ((wakeup cur chan s1).table j)
      rewoken j = wakeup-Woken cur chan s1 j

      kept : SameContent (s.table cur) (s1.table cur)
      kept = (woken cur).same_content

      rekept : SameContent (s1.table cur) ((wakeup cur chan s1).table cur)
      rekept = (rewoken cur).same_content

      again :
          (j : ℕ)
          → ((wakeup cur chan s1).initproc ≡ s1.initproc)
            × ((wakeup cur chan s1).nextpid ≡ s1.nextpid)
            × (((wakeup cur chan s1).table j).parent ≡ (s1.table j).parent)
      again j = wakeup-same cur chan s1 j

      parent_kept :
          (q : ℕ) → q ≢ cur → (s.table cur).parent ≡ some q → (s1.table cur).parent ≡ some q
      parent_kept q other child = ground (arith, reparent-parent addr cur cur s cur cur_in ne)

      awake :
          (q : ℕ)
          → q < nproc
          → q ≢ cur
          → (s.table cur).parent ≡ some q
          → ((wakeup cur chan s1).table q).chan ≡ addr q
          → ((wakeup cur chan s1).table q).state ≢ sleeping
      awake q q_in other child slept =
          wakeup-awake cur chan s1 q q_in other
            (slept ∙ sym (ap (addr_of addr) (parent_kept q other child)))

  pub Exited-IsValid :
      (t : Procs)
      → cur ≢ s.initproc
      → cur < nproc
      → is_live (s.table cur).state ≡ true
      → Exited t
      → IsValid s
      → IsValid t
  Exited-IsValid t ne cur_in lives x valid = record {
    free = λ j h u. elim (ℕ_discrete j cur) [
      | yes e ↦ absurd (not_free j e u)
      | no other ↦ ground (arith, valid.free j h, x.others j other, x.adopted j h, x.same_pid j)
    ];
    taken = λ j h u. elim (ℕ_discrete j cur) [
      | yes e ↦ λ z. valid.taken j h (ground arith) (sym (x.same_pid j) ∙ z)
      | no other ↦ ground (arith, valid.taken j h, x.others j other, x.same_pid j)
    ];
    issued = λ j h. omega (arith, valid.issued j h, x.same_pid j, x.same_next);
    unique = λ j k h l ne' e. ground (arith, valid.unique j k h l, x.same_pid j, x.same_pid k);
    parents = λ j q h e. elim (Bool-cases (is_parent cur (s.table j).parent)) [
      | inl mine ↦
          let to_init : s.initproc ≡ q = ground (arith, x.adopted j h) in
          ground (arith, valid.init_in, valid.init_live, x.others s.initproc (λ z. ne (sym z)))
      | inr not_mine ↦
          let same : (s.table j).parent ≡ some q = ground (arith, x.adopted j h) in
          let other : q ≢ cur = λ z. ground arith in
          ground (arith, valid.parents j q h same, x.others q other)
    ];
    init_in = ground (arith, valid.init_in, x.same_init);
    init_live = ground (arith, valid.init_live, x.same_init, x.others s.initproc (λ z. ne (sym z)));
  }
    where
      not_free : (j : ℕ) → j ≡ cur → is_unused (t.table j).state ≡ true → ⊥
      not_free j e u = ground (arith, x.is_zombie_now)

module _ (addr : ℕ → ℕ) (cur status : ℕ) (s : Procs) where
  abbrev closed : Procs
  closed = set_proc s cur (close_files (s.table cur))

  Exited-closed : (t : Procs) → Exited addr cur status closed t → Exited addr cur status s t
  Exited-closed t x = record {
    is_zombie_now = x.is_zombie_now;
    same_pid = λ j. ground (arith, x.same_pid j);
    has_status = x.has_status;
    same_content = record {
      same_sz = ground (arith, x.same_content);
      same_pagetable = ground (arith, x.same_content);
      same_trapframe = ground (arith, x.same_content);
      same_regs = ground (arith, x.same_content);
      same_name = ground (arith, x.same_content);
      same_tracing = ground (arith, x.same_content);
    };
    same_killed = ground (arith, x.same_killed);
    same_chan = ground (arith, x.same_chan);
    others = λ j other. ground (arith, x.others j other);
    adopted = λ j h. ground (arith, x.adopted j h);
    same_init = x.same_init;
    same_next = x.same_next;
    parent_awake = λ q h other child. x.parent_awake q h other (ground arith);
  }

  exit_closed-Closed : cur < nproc → Closed cur (exit_closed addr cur status closed)
  unfolding exit_closed
  exit_closed-Closed cur_in =
      let s1 = reparent addr cur cur closed in
      let kept = reparent-Woken addr cur cur closed cur in
      let rekept = wakeup-Woken cur (addr_of addr (s1.table cur).parent) s1 cur in
      record {
        no_files = λ fd h.
            let left = ap (λ (f : ℕ → Option ℕ). f fd) (rekept.same_files ∙ kept.same_files) in
            ground (arith, left, h);
        no_cwd = let left = rekept.same_cwd ∙ kept.same_cwd in ground (arith, left);
      }

  -- The exit of a process other than the first makes it a zombie with its status, closes its files and
  -- its directory and keeps its other fields, gives its children to the first process, wakes its
  -- parent if that sleeps in wait(), and changes no other entry but by making it runnable if it slept
  -- and, if it is a child, giving it its new parent. The exit of the first process panics.
  pub kexit-Exited :
      cur < nproc
      → ((cur ≡ s.initproc) × (kexit addr cur status s ≡ panic "init exiting"))
        ⊎ ((cur ≢ s.initproc)
            × ((t : Procs) × (kexit addr cur status s ≡ done t)
                × Exited addr cur status s t
                × Closed cur t))
  unfolding kexit
  kexit-Exited cur_in = elim (ℕ_discrete cur s.initproc) [
    | yes e ↦ inl (e, ground arith)
    | no ne ↦ inr (
      ne,
      (
        exit_closed addr cur status closed,
        ground arith,
        Exited-closed _ (exit_closed-Exited addr cur status closed ne cur_in),
        exit_closed-Closed cur_in,
      ),
    )
  ]
