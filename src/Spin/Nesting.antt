-- ===== src/Spin/Nesting.antt =====
-- kernel/spinlock.c: push_off and pop_off on one CPU. It takes two calls of pop_off to undo two calls
-- of push_off.
use model_lib.Base.{
  ◌-◌, ◌≡◌, ◌≢◌, ◌∙◌, ap, sym, refl, arith, true, false, ◌&&◌, ◌==◌, if◌then◌else◌, List, [], ◌∷◌,
  ◌++◌,
}
use model_lib.Base.Outcome.{Outcome, done, panic, no_fuel, ◌>>=◌}
use native.Mathlib.Decide.{ℕ_discrete}
use model_lib.Spin.{Cpu, push_off, pop_off}

pub data Call : Type 0 where
  push : Call
  pop : Call

-- A run of calls on one CPU.
pub calls : List Call → Cpu → Outcome Cpu
calls [] c = done c
calls (push ∷ l) c = calls l (push_off c)
calls (pop ∷ l) c = pop_off c >>= calls l

-- The sequences in which every push_off is matched by a later pop_off.
pub data Matched : List Call → Type 0 where
  nothing : Matched []
  pair : (l m : List Call) → Matched l → Matched m → Matched ((push ∷ l) ++ (pop ∷ m))

-- A CPU that holds a lock takes no interrupts.
abbrev pub Disabled : Cpu → Type 0
Disabled c = c.noff ≢ 0 → c.interrupts ≡ false

-- The nesting is as it was.
pub record Restored (c d : Cpu) : Type 0 where
  pub noff : d.noff ≡ c.noff
  pub interrupts : d.interrupts ≡ c.interrupts
  pub intena : c.noff ≢ 0 → d.intena ≡ c.intena

calls-++ : (l m : List Call) (c d : Cpu) → calls l c ≡ done d → calls (l ++ m) c ≡ calls m d
unfolding calls
calls-++ [] m c d e = ap (λ o. o >>= calls m) e
calls-++ (push ∷ l) m c d e = calls-++ l m (push_off c) d e
calls-++ (pop ∷ l) m c d e = after (λ u. calls-++ l m u d) (pop_off c) e
  where
    after :
        ((u : Cpu) → calls l u ≡ done d → calls (l ++ m) u ≡ calls m d)
        → (o : Outcome Cpu) → (o >>= calls l) ≡ done d
        → (o >>= calls (l ++ m)) ≡ calls m d
    after rest (done u) h = rest u h
    after rest (panic w) h = absurd (ground (arith, h))
    after rest no_fuel h = absurd (ground (arith, h))

-- push_off, calls that restore the nesting, and pop_off.
pop_off-push_off :
    (c d : Cpu)
    → Disabled c
    → Restored (push_off c) d
    → (u : Cpu) × (pop_off d ≡ done u) × Restored c u
unfolding push_off pop_off
pop_off-push_off c d off r =
    let saved : d.intena ≡ (if c.noff == 0 then c.interrupts else c.intena) =
      r.intena (omega arith) in
    (
      record d {
        noff = d.noff - 1;
        interrupts = if (d.noff - 1 == 0) && d.intena then true else d.interrupts;
      },
      ground (arith, r.noff, r.interrupts),
      record {
        noff = omega (arith, r.noff);
        interrupts = elim (ℕ_discrete c.noff 0) [
          | yes z ↦ ground (arith, z, saved, r.noff, r.interrupts)
          | no nz ↦ ground (arith, nz, off nz, r.noff, r.interrupts)
        ];
        intena = λ ne. ground (arith, ne, saved);
      },
    )

-- A sequence of push_off and pop_off, in which each push_off is matched by a later pop_off, returns; the
-- depth of the nesting and the interrupt flag are then as they were at its start, whether interrupts were
-- on or off. The CPU takes no interrupts at the start if it is inside another push_off.
pub Matched-Restored :
    (l : List Call) (c : Cpu)
    → Matched l
    → Disabled c
    → (d : Cpu) × (calls l c ≡ done d) × Restored c d
unfolding calls push_off
Matched-Restored _ c nothing off =
    (c, refl, record { noff = refl; interrupts = refl; intena = λ ne. refl })
Matched-Restored _ c (pair l m ml mm) off =
    let (d, e, r) = Matched-Restored l (push_off c) ml (λ ne. refl) in
    let (u, ok, back) = pop_off-push_off c d off r in
    let (v, e2, r2) =
      Matched-Restored m u mm (λ ne. back.interrupts ∙ off (λ z. ne (back.noff ∙ z))) in
    (
      v,
      calls-++ l (pop ∷ m) (push_off c) d e ∙ ap (λ o. o >>= calls m) ok ∙ e2,
      record {
        noff = r2.noff ∙ back.noff;
        interrupts = r2.interrupts ∙ back.interrupts;
        intena = λ ne. r2.intena (λ z. ne (sym back.noff ∙ z)) ∙ back.intena ne;
      },
    )
