-- ===== src/Proc/Wake.antt =====
-- wakeup, sleep and reparent of kernel/proc.c, entry by entry.
use model_lib.Base.{
  ℕ, zero, suc, ◌+◌, ◌<◌, ◌≡◌, ◌≢◌, ◌&&◌, true, some, arith, refl, ltb, leb, if◌then◌else◌, ◌==◌,
  ◌∙◌, ap, ◌⊎◌,
}
use model_lib.Proc.{
  Proc, Procs, is_unused, is_zombie, is_sleeping, is_parent, nproc, wakeup, sleep_on, reparent,
  adopt, reparent_loop, runnable, sleeping,
}
use model_lib.Proc.Valid.{SameId}

-- A process that went to sleep on a channel is made runnable by a wakeup of that channel by
-- another process, keeps sleeping over a wakeup of any other channel, and no entry but the
-- caller's sleeps on a channel after its wakeup.
pub wakeup-sleep_on :
    (s : Procs) (i cur chan other : ℕ)
    → i < nproc
    → i ≢ cur
    → other ≢ chan
    → let t = sleep_on i chan s in
      ((wakeup cur chan t).table i ≡ record (t.table i) { state = runnable })
      × ((wakeup cur other t).table i ≡ t.table i)
      × ((j : ℕ)
          → j < nproc
          → j ≢ cur
          → ((wakeup cur chan t).table j).state ≡ sleeping
          → ((wakeup cur chan t).table j).chan ≢ chan)
unfolding wakeup sleep_on
wakeup-sleep_on s i cur chan other h ne ne' =
    (ground arith, ground arith, λ j l m st c. ground arith)

pub wakeup-SameId :
    (cur chan : ℕ) (s : Procs) (j : ℕ) → SameId (s.table j) ((wakeup cur chan s).table j)
unfolding wakeup
wakeup-SameId cur chan s j = ground arith

-- The memory, the registers, the name and the tracing state of two entries are the same.
pub record SameContent (p q : Proc) : Type 0 where
  pub same_sz : q.sz ≡ p.sz
  pub same_pagetable : q.pagetable ≡ p.pagetable
  pub same_trapframe : q.trapframe ≡ p.trapframe
  pub same_regs : q.regs ≡ p.regs
  pub same_name : q.name ≡ p.name
  pub same_tracing : q.tracing ≡ p.tracing

-- What wakeups leave of an entry, besides its parent.
pub record Woken (p q : Proc) : Type 0 where
  pub same_pid : q.pid ≡ p.pid
  pub same_xstate : q.xstate ≡ p.xstate
  pub same_killed : q.killed ≡ p.killed
  pub same_chan : q.chan ≡ p.chan
  pub same_unused : is_unused q.state ≡ is_unused p.state
  pub same_zombie : is_zombie q.state ≡ is_zombie p.state
  pub asleep : is_sleeping q.state ≡ true → is_sleeping p.state ≡ true
  pub woken : (q.state ≡ p.state) ⊎ ((p.state ≡ sleeping) × (q.state ≡ runnable))
  pub same_files : q.ofile ≡ p.ofile
  pub same_cwd : q.cwd ≡ p.cwd
  pub same_content : SameContent p q

pub wakeup-Woken :
    (cur chan : ℕ) (s : Procs) (j : ℕ) → Woken (s.table j) ((wakeup cur chan s).table j)
unfolding wakeup
wakeup-Woken cur chan s j = ground arith

pub wakeup-same :
    (cur chan : ℕ) (s : Procs) (j : ℕ)
    → ((wakeup cur chan s).initproc ≡ s.initproc)
      × ((wakeup cur chan s).nextpid ≡ s.nextpid)
      × (((wakeup cur chan s).table j).parent ≡ (s.table j).parent)
unfolding wakeup
wakeup-same cur chan s j = ground arith

pub wakeup-awake :
    (cur chan : ℕ) (s : Procs) (j : ℕ)
    → j < nproc
    → j ≢ cur
    → ((wakeup cur chan s).table j).chan ≡ chan
    → ((wakeup cur chan s).table j).state ≢ sleeping
unfolding wakeup
wakeup-awake cur chan s j h ne c st = ground arith

module _ (addr : ℕ → ℕ) (cur p : ℕ) where
  adopt-same :
      (i : ℕ) (s : Procs)
      → ((adopt addr cur p i s).initproc ≡ s.initproc)
        × ((adopt addr cur p i s).nextpid ≡ s.nextpid)
  unfolding adopt wakeup
  adopt-same i s = ground arith

  adopt-Woken : (i : ℕ) (s : Procs) (j : ℕ) → Woken (s.table j) ((adopt addr cur p i s).table j)
  unfolding adopt wakeup
  adopt-Woken i s j = ground arith

  adopt-parent :
      (i : ℕ) (s : Procs) (j : ℕ)
      → ((adopt addr cur p i s).table j).parent
        ≡ (if i == j && is_parent p (s.table j).parent then some s.initproc else (s.table j).parent)
  unfolding adopt wakeup
  adopt-parent i s j = ground arith

  reparent_loop-same :
      (n i : ℕ) (s : Procs)
      → ((reparent_loop addr n i cur p s).initproc ≡ s.initproc)
        × ((reparent_loop addr n i cur p s).nextpid ≡ s.nextpid)
  unfolding reparent_loop
  reparent_loop-same zero i s = (refl, refl)
  reparent_loop-same (suc n) i s =
      ground (arith, adopt-same i s, reparent_loop-same n (i + 1) (adopt addr cur p i s))

  reparent_loop-Woken :
      (n i : ℕ) (s : Procs) (j : ℕ) → Woken (s.table j) ((reparent_loop addr n i cur p s).table j)
  unfolding reparent_loop
  reparent_loop-Woken zero i s j = ground arith
  reparent_loop-Woken (suc n) i s j =
      ground (arith, adopt-Woken i s j, reparent_loop-Woken n (i + 1) (adopt addr cur p i s) j)

  -- The entries that the loop looks at change their parent, if it is the process that exits.
  reparent_loop-parent :
      (n i : ℕ) (s : Procs) (j : ℕ)
      → p ≢ s.initproc
      → ((reparent_loop addr n i cur p s).table j).parent ≡ (
          if leb i j && ltb j (i + n) && is_parent p (s.table j).parent
          then some s.initproc
          else (s.table j).parent)
  unfolding reparent_loop
  reparent_loop-parent zero i s j ne = ground arith
  reparent_loop-parent (suc n) i s j ne = ground (
    arith,
    adopt-same i s,
    adopt-parent i s j,
    reparent_loop-parent n (i + 1) (adopt addr cur p i s) j,
  )

  pub reparent-same :
      (s : Procs)
      → ((reparent addr cur p s).initproc ≡ s.initproc)
        × ((reparent addr cur p s).nextpid ≡ s.nextpid)
  unfolding reparent
  reparent-same s = reparent_loop-same nproc 0 s

  pub reparent-Woken : (s : Procs) (j : ℕ) → Woken (s.table j) ((reparent addr cur p s).table j)
  unfolding reparent
  reparent-Woken s j = reparent_loop-Woken nproc 0 s j

  pub reparent-parent :
      (s : Procs) (j : ℕ)
      → j < nproc
      → p ≢ s.initproc
      → ((reparent addr cur p s).table j).parent
        ≡ (if is_parent p (s.table j).parent then some s.initproc else (s.table j).parent)
  unfolding reparent
  reparent-parent s j h ne =
      reparent_loop-parent nproc 0 s j ne
      ∙ ap
          (λ b. if b && is_parent p (s.table j).parent then some s.initproc else (s.table j).parent)
          (let in_range : (leb 0 j && ltb j (0 + nproc)) ≡ true = ground arith in in_range)
