-- ===== src/Spin/Invariant.antt =====
-- kernel/spinlock.c: the invariant of the lock and of the nesting on the CPUs.
use model_lib.Base.{
  ℕ, ◌+◌, ◌-◌, ◌≡◌, ◌≢◌, ◌∙◌, sym, refl, arith, subst, Bool, true, false, ◌&&◌, ◌==◌, if◌then◌else◌,
  Option, update, update_self, update_ne,
}
use model_lib.Base.Outcome.{done}
use native.Mathlib.Decide.{ℕ_discrete}
use model_lib.Spin.{
  Cpu, push_off, pop_off, Phase, outside, spinning, exchanged, inside, disowned, unlocked, Core,
  Spin, set_core, owns,
}

-- A CPU that has made the exchange, and not yet the store that undoes it.
abbrev pub busy : Phase → Bool
busy outside = false
busy spinning = false
busy exchanged = true
busy inside = true
busy disowned = true
busy unlocked = false

abbrev pub is_inside : Phase → Bool
is_inside outside = false
is_inside spinning = false
is_inside exchanged = false
is_inside inside = true
is_inside disowned = false
is_inside unlocked = false

-- The calls of push_off by acquire that release has not undone.
abbrev pub depth : Phase → ℕ
depth outside = 0
depth spinning = 1
depth exchanged = 1
depth inside = 1
depth disowned = 1
depth unlocked = 1

-- A CPU counts its locks, and takes no interrupts while it has one.
pub record Nested (c : Core) : Type 0 where
  pub count : c.cpu.noff ≡ c.others + depth c.phase
  pub off : c.cpu.noff ≢ 0 → c.cpu.interrupts ≡ false

-- The CPU `i` and what the lock says.
pub record Agrees (locked : Bool) (owner : Option ℕ) (i : ℕ) (c : Core) : Type 0 where
  pub nested : Nested c
  pub owned : owns owner i ≡ is_inside c.phase
  pub free : locked ≡ false → busy c.phase ≡ false

pub record IsValid (s : Spin) : Type 0 where
  pub agrees : (i : ℕ) → Agrees s.locked s.owner i (s.cores i)
  pub one : (i j : ℕ) → busy (s.cores i).phase ≡ true → busy (s.cores j).phase ≡ true → i ≡ j

pub inside-busy : (p : Phase) → busy p ≡ false → is_inside p ≡ false
inside-busy outside e = refl
inside-busy spinning e = refl
inside-busy exchanged e = refl
inside-busy inside e = e
inside-busy disowned e = refl
inside-busy unlocked e = refl

-- While one CPU is busy, no other is.
pub alone :
    (s : Spin) (i j : ℕ)
    → IsValid s
    → busy (s.cores i).phase ≡ true
    → j ≢ i
    → busy (s.cores j).phase ≡ false
alone s i j inv b ne = ground (arith, b, ne, inv.one j i)

-- One CPU and the lock change.
pub IsValid-changed :
    (s : Spin) (i : ℕ) (c : Core) (locked : Bool) (owner : Option ℕ)
    → IsValid s
    → Agrees locked owner i c
    → ((j : ℕ) → j ≢ i → Agrees locked owner j (s.cores j))
    → (busy c.phase ≡ true → (j : ℕ) → j ≢ i → busy (s.cores j).phase ≡ false)
    → IsValid (record { locked = locked; owner = owner; cores = update s.cores i c })
IsValid-changed s i c locked owner inv here there alone = record {
  agrees = λ j. elim (ℕ_discrete j i) [
    | yes e ↦
        subst (λ k. Agrees locked owner k (update s.cores i c k)) (sym e)
          (subst (Agrees locked owner i) (sym (update_self s.cores i c)) here)
    | no ne ↦
        subst (Agrees locked owner j) (sym (update_ne s.cores i j c (λ e. ne (sym e)))) (there j ne)
  ];
  one = λ j k bj bk. elim (ℕ_discrete j i) [
    | yes ej ↦ elim (ℕ_discrete k i) [
      | yes ek ↦ ej ∙ sym ek
      | no nk ↦ absurd (ground (arith, bj, bk, ej, alone (ground (arith, bj, ej)) k nk))
    ]
    | no nj ↦ elim (ℕ_discrete k i) [
      | yes ek ↦ absurd (ground (arith, bj, bk, ek, alone (ground (arith, bk, ek)) j nj))
      | no nk ↦ inv.one j k (ground (arith, bj, nj)) (ground (arith, bk, nk))
    ]
  ];
}

-- The CPU `i` changes, and not the lock.
pub IsValid-core :
    (s : Spin) (i : ℕ) (c : Core)
    → IsValid s
    → Nested c
    → is_inside c.phase ≡ is_inside (s.cores i).phase
    → busy c.phase ≡ busy (s.cores i).phase
    → IsValid (set_core i c s)
IsValid-core s i c inv nested same_inside same_busy =
    let here = inv.agrees i in
    IsValid-changed s i c s.locked s.owner inv
      record {
        nested = nested;
        owned = here.owned ∙ sym same_inside;
        free = λ e. same_busy ∙ here.free e;
      }
      (λ j ne. inv.agrees j) (λ b j ne. alone s i j inv (sym same_busy ∙ b) ne)

-- The CPU `i`, which has the lock, changes what the lock says.
pub IsValid-lock :
    (s : Spin) (i : ℕ) (c : Core) (locked : Bool) (owner : Option ℕ)
    → IsValid s
    → busy (s.cores i).phase ≡ true
    → Agrees locked owner i c
    → ((j : ℕ) → j ≢ i → owns owner j ≡ false)
    → IsValid (record { locked = locked; owner = owner; cores = update s.cores i c })
IsValid-lock s i c locked owner inv b here nobody =
    IsValid-changed s i c locked owner inv here
      (λ j ne.
        let out = alone s i j inv b ne in
        record {
          nested = (inv.agrees j).nested;
          owned = nobody j ne ∙ sym (inside-busy (s.cores j).phase out);
          free = λ e. out;
        })
      (λ busy_now j ne. alone s i j inv b ne)

-- What push_off and pop_off do to the nesting.
pub Nested-push_off :
    (c : Core) (p : Phase) (others : ℕ)
    → Nested c
    → others + depth p ≡ c.others + depth c.phase + 1
    → Nested (record { cpu = push_off c.cpu; phase = p; others = others })
unfolding push_off
Nested-push_off c p others n e = record { count = ground (arith, n.count, e); off = λ ne. refl }

pub pop_off-succeeds :
    (c : Core) (p : Phase) (others : ℕ)
    → Nested c
    → others + depth p + 1 ≡ c.others + depth c.phase
    → (u : Cpu) × (pop_off c.cpu ≡ done u) × Nested (record { cpu = u; phase = p; others = others })
unfolding pop_off
pop_off-succeeds c p others n e =
    let count : c.cpu.noff ≡ others + depth p + 1 = n.count ∙ sym e in
    let off : c.cpu.interrupts ≡ false = n.off (omega arith) in
    (
      record (c.cpu) {
        noff = c.cpu.noff - 1;
        interrupts = if (c.cpu.noff - 1 == 0) && c.cpu.intena then true else c.cpu.interrupts;
      },
      ground (arith, count, off),
      record { count = omega (arith, count); off = λ ne. ground (arith, ne, off) },
    )
