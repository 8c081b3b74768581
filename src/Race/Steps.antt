-- ===== src/Race/Steps.antt =====
-- Every step of the threads of kernel/race.c that use the lock, and every schedule of them.
use model_lib.Base.{
  ℕ, ◌+◌, ◌≤◌, ◌<◌, ◌≡◌, ◌≢◌, inl, inr, arith, refl, true, false, Bool-cases, if◌then◌else◌, Option,
  none, some, List, [], ◌∷◌, ◌∙◌, sym, ap, subst, Option-cases,
}
use native.Mathlib.Decide.{ℕ_discrete}
use model_lib.Base.Words.{u32}
use model_lib.Race.{
  Pc, head, entered, has_temp, stored, has_total, leaving, Thread, Race, at, next, set_thread,
  try_acquire, step_at, step, run,
}
use model_lib.Race.Locked.{
  inside, owed_at, owed, owed_by, Orderly, Orderly-outside, Locked, Locked-moved,
}

-- While one thread has the lock, the others are outside.
module _ (n goal t : ℕ) (s : Race) (inv : Locked n goal s) where
  abbrev p : Thread
  p = s.threads t

  alone : (j : ℕ) → j ≢ t → s.holder ≡ some t → inside (s.threads j).pc ≡ false
  alone j ne held = elim (Bool-cases (inside (s.threads j).pc)) [
    | inl i ↦ absurd (ground (arith, ne, held, (inv.orderly j).holds i))
    | inr out ↦ out
  ]

  others :
      (h : Option ℕ) (c o : ℕ) → s.holder ≡ some t → (j : ℕ) → j ≢ t → Orderly h c o j (s.threads j)
  others h c o held j ne =
      Orderly-outside s.holder h s.counter c s.total_ops o j (s.threads j) (inv.orderly j)
        (alone j ne held)

  -- The thread goes on inside, and what is shared changes.
  module _ (pc : Pc) (e : p.pc ≡ pc) (i : inside pc ≡ true) where
    held : s.holder ≡ some t
    held = (inv.orderly t).holds (ap inside e ∙ i)

    some_left : 0 < p.left
    some_left = (inv.orderly t).busy (ap inside e ∙ i)

    owes : owed p ≡ owed_at pc p.left
    owes = ap (λ x. owed_at x p.left) e

  Locked-entered : p.pc ≡ entered → Locked n goal (step_at t p entered s)
  unfolding step_at inside owed_at
  Locked-entered e =
      Locked-moved n goal t s s.holder s.counter s.total_ops (at (has_temp s.counter) p) inv
        record {
          locks = (inv.orderly t).locks;
          holds = λ i. held entered e refl;
          busy = λ i. some_left entered e refl;
          temp = λ v same. ground (arith, same);
          ops = λ v same. absurd (ground (arith, same));
        }
        (others s.holder s.counter s.total_ops (held entered e refl)) (omega arith)
        (λ rest. ap (λ x. u32 (s.counter + (rest + x))) (sym (owes entered e refl)))

  Locked-has_temp : (v : ℕ) → p.pc ≡ has_temp v → Locked n goal (step_at t p (has_temp v) s)
  unfolding step_at inside owed_at
  Locked-has_temp v e =
      Locked-moved n goal t s s.holder (u32 (v + 1)) s.total_ops (at stored p) inv
        record {
          locks = (inv.orderly t).locks;
          holds = λ i. held (has_temp v) e refl;
          busy = λ i. some_left (has_temp v) e refl;
          temp = λ w same. absurd (ground (arith, same));
          ops = λ w same. absurd (ground (arith, same));
        }
        (others s.holder (u32 (v + 1)) s.total_ops (held (has_temp v) e refl)) (omega arith)
        (λ rest. omega (
          arith,
          owes (has_temp v) e refl,
          some_left (has_temp v) e refl,
          (inv.orderly t).temp v e,
        ))

  Locked-stored : p.pc ≡ stored → Locked n goal (step_at t p stored s)
  unfolding step_at inside owed_at
  Locked-stored e =
      Locked-moved n goal t s s.holder s.counter s.total_ops (at (has_total s.total_ops) p) inv
        record {
          locks = (inv.orderly t).locks;
          holds = λ i. held stored e refl;
          busy = λ i. some_left stored e refl;
          temp = λ w same. absurd (ground (arith, same));
          ops = λ w same. ground (arith, same);
        }
        (others s.holder s.counter s.total_ops (held stored e refl)) (omega arith)
        (λ rest. ap (λ x. u32 (s.counter + (rest + x))) (sym (owes stored e refl)))

  Locked-has_total : (v : ℕ) → p.pc ≡ has_total v → Locked n goal (step_at t p (has_total v) s)
  unfolding step_at inside owed_at
  Locked-has_total v e =
      subst
        (λ c. Locked n goal (
          set_thread t (if c then at leaving p else next p) (record s { total_ops = u32 (v + 1) })))
        (sym (inv.orderly t).locks)
        (Locked-moved n goal t s s.holder s.counter (u32 (v + 1)) (at leaving p) inv
          record {
            locks = (inv.orderly t).locks;
            holds = λ i. held (has_total v) e refl;
            busy = λ i. some_left (has_total v) e refl;
            temp = λ w same. absurd (ground (arith, same));
            ops = λ w same. absurd (ground (arith, same));
          }
          (others s.holder s.counter (u32 (v + 1)) (held (has_total v) e refl)) (omega arith)
          (λ rest. ap (λ x. u32 (s.counter + (rest + x))) (sym (owes (has_total v) e refl))))

  Locked-leaving : p.pc ≡ leaving → Locked n goal (step_at t p leaving s)
  unfolding step_at inside owed_at
  Locked-leaving e =
      Locked-moved n goal t s none s.counter s.total_ops (next p) inv
        record {
          locks = (inv.orderly t).locks;
          holds = λ i. absurd (ground (arith, i));
          busy = λ i. absurd (ground (arith, i));
          temp = λ w same. absurd (ground (arith, same));
          ops = λ w same. absurd (ground (arith, same));
        }
        (others none s.counter s.total_ops (held leaving e refl)) (omega arith)
        (λ rest. ap (λ x. u32 (s.counter + (rest + x))) (sym (owes leaving e refl)))

  acquired :
      p.pc ≡ head
      → 0 < p.left
      → s.holder ≡ none
      → Locked n goal (set_thread t (at entered p) (record s { holder = some t }))
  unfolding inside owed_at
  acquired e l free =
      Locked-moved n goal t s (some t) s.counter s.total_ops (at entered p) inv
        record {
          locks = (inv.orderly t).locks;
          holds = λ i. refl;
          busy = λ i. l;
          temp = λ w same. absurd (ground (arith, same));
          ops = λ w same. absurd (ground (arith, same));
        }
        (λ j ne.
          Orderly-outside s.holder (some t) s.counter s.counter s.total_ops s.total_ops j
            (s.threads j) (inv.orderly j) (nobody j))
        (omega arith)
        (λ rest. ap (λ x. u32 (s.counter + (rest + x))) (sym (ap (λ x. owed_at x p.left) e)))
    where
      nobody : (j : ℕ) → inside (s.threads j).pc ≡ false
      nobody j = elim (Bool-cases (inside (s.threads j).pc)) [
        | inl i ↦ absurd (ground (arith, free, (inv.orderly j).holds i))
        | inr out ↦ out
      ]

  Locked-try_acquire : p.pc ≡ head → 0 < p.left → Locked n goal (try_acquire t p s)
  unfolding try_acquire
  Locked-try_acquire e l = elim (Option-cases s.holder) [
    | inl free ↦ rw free (acquired e l free)
    | inr (h, busy) ↦ subst (Locked n goal) (ground (arith, busy)) inv
  ]

  Locked-head : p.pc ≡ head → Locked n goal (step_at t p head s)
  unfolding step_at
  Locked-head e = elim (ℕ_discrete p.left 0) [
    | yes z ↦ subst (Locked n goal) (ground (arith, z)) inv
    | no nz ↦
        subst (Locked n goal) (ground (arith, nz, (inv.orderly t).locks))
          (Locked-try_acquire e (omega arith))
  ]

  Locked-step_at : (pc : Pc) → p.pc ≡ pc → Locked n goal (step_at t p pc s)
  Locked-step_at head e = Locked-head e
  Locked-step_at entered e = Locked-entered e
  Locked-step_at (has_temp v) e = Locked-has_temp v e
  Locked-step_at stored e = Locked-stored e
  Locked-step_at (has_total v) e = Locked-has_total v e
  Locked-step_at leaving e = Locked-leaving e

  pub Locked-step : Locked n goal (step t s)
  unfolding step
  Locked-step = Locked-step_at (s.threads t).pc refl

Locked-run : (n goal : ℕ) (ts : List ℕ) (s : Race) → Locked n goal s → Locked n goal (run ts s)
unfolding run
Locked-run n goal [] s inv = inv
Locked-run n goal (t ∷ ts) s inv = Locked-run n goal ts (step t s) (Locked-step n goal t s inv)

-- `n` threads are about to run increments that use the lock, and nobody holds it.
pub record Starts (n : ℕ) (s : Race) : Type 0 where
  pub free : s.holder ≡ none
  pub heads : (t : ℕ) → (s.threads t).pc ≡ head
  pub locking : (t : ℕ) → (s.threads t).use_lock ≡ true
  pub only : (t : ℕ) → n ≤ t → (s.threads t).left ≡ 0

Starts-Locked : (n : ℕ) (s : Race) → Starts n s → Locked n (u32 (s.counter + owed_by n s.threads)) s
unfolding inside
Starts-Locked n s start = record {
  orderly = λ t. record {
    locks = start.locking t;
    holds = λ i. absurd (ground (arith, i, ap inside (start.heads t)));
    busy = λ i. absurd (ground (arith, i, ap inside (start.heads t)));
    temp = λ v e. absurd (ground (arith, start.heads t, e));
    ops = λ v e. absurd (ground (arith, start.heads t, e));
  };
  beyond = start.only;
  counts = refl;
}

-- No increment is lost: when `n` threads run increments that use the lock, then in every
-- interleaving and at every moment the counter and the increments that the threads still have to
-- store add up to what they were at the start, modulo 2 ^ 32.
pub run-counts :
    (n : ℕ) (ts : List ℕ) (s : Race)
    → Starts n s
    → u32 ((run ts s).counter + owed_by n (run ts s).threads)
      ≡ u32 (s.counter + owed_by n s.threads)
run-counts n ts s start = (Locked-run n _ ts s (Starts-Locked n s start)).counts

-- When `n` threads run increments that use the lock, then in every interleaving, while one thread
-- is between acquire and release, no other thread is.
pub run-exclusive :
    (n : ℕ) (ts : List ℕ) (s : Race) (i j : ℕ)
    → Starts n s
    → i ≢ j
    → inside ((run ts s).threads i).pc ≡ true
    → inside ((run ts s).threads j).pc ≡ false
run-exclusive n ts s i j start ne hi =
    let inv = Locked-run n _ ts s (Starts-Locked n s start) in
    alone n _ i (run ts s) inv j (λ e. ne (sym e)) ((inv.orderly i).holds hi)
