-- ===== src/Spin/Exclusion.antt =====
-- kernel/spinlock.c: every step keeps the invariant, so that at most one CPU is inside.
use model_lib.Base.{
  ℕ, ◌+◌, ◌-◌, ◌≡◌, ◌≢◌, ◌∙◌, ap, sym, refl, arith, subst, Bool, true, false, none, some, inl, inr,
  Bool-cases,
}
use model_lib.Base.Outcome.{Outcome, done, ◌>>=◌, done_injective}
use model_lib.Spin.{
  push_off, Phase, outside, spinning, exchanged, inside, disowned, unlocked, Core, Spin, set_core,
  at, owns, holding, acquire_start, acquire_try, acquire_end, release_start, release_store,
  release_end, push_other, pop_other, set_interrupts, Step, acquires, tries, takes, releases,
  stores, leaves, pushes, pops, switches, Reach, start, more,
}
use model_lib.Spin.Invariant.{
  busy, is_inside, depth, Nested, Agrees, IsValid, inside-busy, alone, IsValid-changed,
  IsValid-core, IsValid-lock, Nested-push_off, pop_off-succeeds,
}

-- A step that succeeds, and keeps the invariant.
abbrev pub Succeeds : Outcome Spin → Type 0
Succeeds o = (t : Spin) × (o ≡ done t) × IsValid t

module _ (s : Spin) (i : ℕ) (inv : IsValid s) where
  abbrev c : Core
  c = s.cores i

  here : Agrees s.locked s.owner i c
  here = inv.agrees i

  at_phase : (p : Phase) → depth p ≡ depth c.phase → Nested (at p c)
  at_phase p e = record { count = ground (arith, here.nested.count, e); off = here.nested.off }

  not_held : is_inside c.phase ≡ false → owns s.owner i ≡ false
  not_held e = here.owned ∙ e

  IsValid-acquire_start : c.phase ≡ outside → Succeeds (acquire_start i s)
  unfolding acquire_start holding
  IsValid-acquire_start e = (
    set_core i (record c { cpu = push_off c.cpu; phase = spinning }) s,
    ground (arith, e, not_held (ap is_inside e)),
    IsValid-core s i (record c { cpu = push_off c.cpu; phase = spinning }) inv
        (Nested-push_off c spinning c.others here.nested (ground (arith, e))) (ap is_inside (sym e))
        (ap busy (sym e)),
  )

  IsValid-acquire_try : c.phase ≡ spinning → IsValid (acquire_try i s)
  unfolding acquire_try
  IsValid-acquire_try e = elim (Bool-cases s.locked) [
    | inl taken ↦ subst IsValid (ground (arith, taken)) inv
    | inr free ↦ subst IsValid (ground (arith, free)) (
        IsValid-changed s i (at exchanged c) true s.owner inv
          record {
            nested = at_phase exchanged (ap depth (sym e));
            owned = not_held (ap is_inside e);
            free = λ t. absurd (ground (arith, t));
          }
          (λ j ne. record {
            nested = (inv.agrees j).nested;
            owned = (inv.agrees j).owned;
            free = λ t. absurd (ground (arith, t));
          })
          (λ b j ne. (inv.agrees j).free free))
  ]

  busy_at : (p : Phase) → c.phase ≡ p → busy p ≡ true → busy c.phase ≡ true
  busy_at p e b = ap busy e ∙ b

  not_free : (p : Phase) → c.phase ≡ p → busy p ≡ true → s.locked ≢ false
  not_free p e b free = absurd (ground (arith, busy_at p e b, here.free free))

  not_owner : (j : ℕ) → busy c.phase ≡ true → j ≢ i → owns s.owner j ≡ false
  not_owner j b ne = (inv.agrees j).owned ∙ inside-busy (s.cores j).phase (alone s i j inv b ne)

  IsValid-acquire_end : c.phase ≡ exchanged → IsValid (acquire_end i s)
  unfolding acquire_end
  IsValid-acquire_end e =
      IsValid-lock s i (at inside c) s.locked (some i) inv (busy_at exchanged e refl)
        record {
          nested = at_phase inside (ap depth (sym e));
          owned = ground arith;
          free = λ free. absurd (not_free exchanged e refl free);
        }
        (λ j ne. ground (arith, ne))

  IsValid-release_start : c.phase ≡ inside → Succeeds (release_start i s)
  unfolding release_start holding
  IsValid-release_start e = (
    set_core i (at disowned c) (record s { owner = none }),
    ground (arith, here.owned ∙ ap is_inside e, not_free inside e refl),
    IsValid-lock s i (at disowned c) s.locked none inv (busy_at inside e refl)
        record {
          nested = at_phase disowned (ap depth (sym e));
          owned = refl;
          free = λ free. absurd (not_free inside e refl free);
        }
        (λ j ne. refl),
  )

  IsValid-release_store : c.phase ≡ disowned → IsValid (release_store i s)
  unfolding release_store
  IsValid-release_store e =
      IsValid-lock s i (at unlocked c) false s.owner inv (busy_at disowned e refl)
        record {
          nested = at_phase unlocked (ap depth (sym e));
          owned = not_held (ap is_inside e);
          free = λ free. refl;
        }
        (λ j ne. not_owner j (busy_at disowned e refl) ne)

  IsValid-release_end : c.phase ≡ unlocked → Succeeds (release_end i s)
  unfolding release_end
  IsValid-release_end e =
      let (u, ok, nested) = pop_off-succeeds c outside c.others here.nested (ground (arith, e)) in
      (
        set_core i (record c { cpu = u; phase = outside }) s,
        ap (λ o. o >>= λ u. done (set_core i (record c { cpu = u; phase = outside }) s)) ok,
        IsValid-core s i (record c { cpu = u; phase = outside }) inv nested (ap is_inside (sym e))
            (ap busy (sym e)),
      )

  IsValid-push_other : IsValid (push_other i s)
  IsValid-push_other =
      IsValid-core s i (record c { cpu = push_off c.cpu; others = c.others + 1 }) inv
        (Nested-push_off c c.phase (c.others + 1) here.nested (omega arith)) refl refl

  IsValid-pop_other : c.others ≢ 0 → Succeeds (pop_other i s)
  IsValid-pop_other ne =
      let (u, ok, nested) =
        pop_off-succeeds c c.phase (c.others - 1) here.nested (omega (arith, ne)) in
      (
        set_core i (record c { cpu = u; others = c.others - 1 }) s,
        ap (λ o. o >>= λ u. done (set_core i (record c { cpu = u; others = c.others - 1 }) s)) ok,
        IsValid-core s i (record c { cpu = u; others = c.others - 1 }) inv nested refl refl,
      )

  IsValid-set_interrupts : (b : Bool) → c.cpu.noff ≡ 0 → IsValid (set_interrupts i b s)
  IsValid-set_interrupts b z =
      IsValid-core s i (record c { cpu = record (c.cpu) { interrupts = b } }) inv
        record { count = here.nested.count; off = λ ne. absurd (ne z) } refl refl

pub step-Succeeds : (s : Spin) (o : Outcome Spin) → IsValid s → Step s o → Succeeds o
step-Succeeds s _ inv (acquires i e) = IsValid-acquire_start s i inv e
step-Succeeds s _ inv (tries i e) = (_, refl, IsValid-acquire_try s i inv e)
step-Succeeds s _ inv (takes i e) = (_, refl, IsValid-acquire_end s i inv e)
step-Succeeds s _ inv (releases i e) = IsValid-release_start s i inv e
step-Succeeds s _ inv (stores i e) = (_, refl, IsValid-release_store s i inv e)
step-Succeeds s _ inv (leaves i e) = IsValid-release_end s i inv e
step-Succeeds s _ inv (pushes i e) = (_, refl, IsValid-push_other s i inv)
step-Succeeds s _ inv (pops i e ne) = IsValid-pop_other s i inv ne
step-Succeeds s _ inv (switches i b e) = (_, refl, IsValid-set_interrupts s i inv b e)

reach-IsValid : (on : ℕ → Bool) (s : Spin) → Reach on s → IsValid s
reach-IsValid on _ start = record {
  agrees = λ i. record {
    nested = record { count = refl; off = λ ne. absurd (ne refl) };
    owned = refl;
    free = λ e. refl;
  };
  one = λ i j b. absurd (ground (arith, b));
}
reach-IsValid on _ (more s t r st) =
    let (u, e, inv) = step-Succeeds s (done t) (reach-IsValid on s r) st in
    subst IsValid (sym (done_injective e)) inv

-- In every state that the CPUs can reach, of any number of CPUs that are inside the lock there is one
-- only; it takes no interrupts, and holding tells that it holds the lock.
pub Reach-excludes :
    (on : ℕ → Bool) (s : Spin) (i j : ℕ)
    → Reach on s
    → (s.cores i).phase ≡ inside
    → (s.cores j).phase ≡ inside
    → (i ≡ j) × ((s.cores i).cpu.interrupts ≡ false) × (holding i s ≡ true)
unfolding holding
Reach-excludes on s i j r ei ej =
    let inv = reach-IsValid on s r in
    let a = inv.agrees i in
    (
      inv.one i j (ap busy ei) (ap busy ej),
      a.nested.off (λ z. absurd (ground (arith, z, ei, a.nested.count))),
      ground (arith, a.owned, a.free, ei),
    )

-- No step panics in a state that the CPUs can reach: acquire, release, push_off and pop_off all return, if a
-- CPU does not acquire a lock that it holds and releases only what it holds.
pub Reach-succeeds :
    (on : ℕ → Bool) (s : Spin) (o : Outcome Spin)
    → Reach on s
    → Step s o
    → (t : Spin) × (o ≡ done t) × Reach on t
Reach-succeeds on s o r st =
    let (t, e, inv) = step-Succeeds s o (reach-IsValid on s r) st in
    (t, e, more s t r (subst (Step s) e st))
