-- ===== src/Race/Locked.antt =====
-- Increments of kernel/race.c that use the lock, in any interleaving.
use model_lib.Base.{
  ℕ, zero, suc, ◌+◌, ◌-◌, ◌≤◌, ◌<◌, ◌≡◌, ◌≢◌, arith, refl, Bool, true, false, Option, some, update,
  ◌∙◌, sym, ap, subst, update_ne, update_self,
}
use native.Mathlib.Decide.{dec_lt, ℕ_discrete}
use model_lib.Base.Words.{u32}
use model_lib.Race.{
  Pc, head, entered, has_temp, stored, has_total, leaving, Thread, Race, set_thread,
}

-- Between acquire and release.
unfoldable pub inside : Pc → Bool
inside head = false
inside entered = true
inside (has_temp v) = true
inside stored = true
inside (has_total v) = true
inside leaving = true

-- The increments that a thread still has to store.
unfoldable pub owed_at : Pc → ℕ → ℕ
owed_at head left = left
owed_at entered left = left
owed_at (has_temp v) left = left
owed_at stored left = left - 1
owed_at (has_total v) left = left - 1
owed_at leaving left = left - 1

abbrev pub owed : Thread → ℕ
owed p = owed_at p.pc p.left

-- The increments that the first `n` threads still have to store.
unfoldable pub owed_by : ℕ → (ℕ → Thread) → ℕ
owed_by zero threads = 0
owed_by (suc n) threads = owed (threads n) + owed_by n threads

owed_by_beyond :
    (n t : ℕ) (threads : ℕ → Thread) (p : Thread)
    → n ≤ t
    → owed_by n (update threads t p) ≡ owed_by n threads
unfolding owed_by
owed_by_beyond zero t threads p h = refl
owed_by_beyond (suc n) t threads p h = omega (
  arith,
  owed_by_beyond n t threads p (omega arith),
  ap owed (update_ne threads t n p (λ e. omega arith)),
)

-- What the other threads owe.
owed_by-others :
    (n t : ℕ) (threads : ℕ → Thread)
    → t < n
    → (rest : ℕ) × (owed_by n threads ≡ rest + owed (threads t))
      × ((p : Thread) → owed_by n (update threads t p) ≡ rest + owed p)
unfolding owed_by
owed_by-others zero t threads h = absurd (omega arith)
owed_by-others (suc n) t threads h = elim (ℕ_discrete t n) [
  | yes e ↦
      subst
        (λ m.
          (rest : ℕ) × (owed (threads m) + owed_by m threads ≡ rest + owed (threads t))
          × ((p : Thread)
              → owed (update threads t p m) + owed_by m (update threads t p) ≡ rest + owed p))
        e
        (
          owed_by t threads,
          omega arith,
          λ p. omega (
            arith,
            owed_by_beyond t t threads p (omega arith),
            ap owed (update_self threads t p),
          ),
        )
  | no ne ↦
      let (rest, all, moved) = owed_by-others n t threads (omega arith) in
      (
        owed (threads n) + rest,
        omega (arith, all),
        λ p. omega (arith, moved p, ap owed (update_ne threads t n p ne)),
      )
]

owed_at_bound : (pc : Pc) (left : ℕ) → owed_at pc left ≤ left
unfolding owed_at
owed_at_bound head left = omega arith
owed_at_bound entered left = omega arith
owed_at_bound (has_temp v) left = omega arith
owed_at_bound stored left = omega arith
owed_at_bound (has_total v) left = omega arith
owed_at_bound leaving left = omega arith

-- What holds of the thread `t` when `holder` has the lock.
pub record Orderly (holder : Option ℕ) (counter total t : ℕ) (p : Thread) : Type 0 where
  pub locks : p.use_lock ≡ true
  pub holds : inside p.pc ≡ true → holder ≡ some t
  pub busy : inside p.pc ≡ true → 0 < p.left
  pub temp : (v : ℕ) → p.pc ≡ has_temp v → counter ≡ v
  pub ops : (v : ℕ) → p.pc ≡ has_total v → total ≡ v

-- A thread that is outside does not depend on what is shared.
pub Orderly-outside :
    (holder other : Option ℕ) (counter c total o t : ℕ) (p : Thread)
    → Orderly holder counter total t p
    → inside p.pc ≡ false
    → Orderly other c o t p
unfolding inside
Orderly-outside holder other counter c total o t p ok out = record {
  locks = ok.locks;
  holds = λ i. ground (arith, i, out);
  busy = ok.busy;
  temp = λ v e. absurd (ground (arith, ap inside e, out));
  ops = λ v e. absurd (ground (arith, ap inside e, out));
}

pub record Locked (n goal : ℕ) (s : Race) : Type 0 where
  pub orderly : (t : ℕ) → Orderly s.holder s.counter s.total_ops t (s.threads t)
  pub beyond : (t : ℕ) → n ≤ t → (s.threads t).left ≡ 0
  pub counts : u32 (s.counter + owed_by n s.threads) ≡ goal

-- The thread `t` becomes `p`, and what is shared changes.
module _ (n goal t : ℕ) (s : Race) (h : Option ℕ) (c o : ℕ) (p : Thread) where
  abbrev pub moved : Race
  moved = set_thread t p (record s { holder = h; counter = c; total_ops = o })

  counts-moved :
      Locked n goal s
      → p.left ≤ (s.threads t).left
      → ((rest : ℕ) → u32 (c + (rest + owed p)) ≡ u32 (s.counter + (rest + owed (s.threads t))))
      → u32 (c + owed_by n moved.threads) ≡ goal
  counts-moved inv less same = elim (dec_lt t n) [
    | yes l ↦
        let (rest, all, now) = owed_by-others n t s.threads l in
        ap (λ x. u32 (c + x)) (now p)
        ∙ same rest
        ∙ sym (ap (λ x. u32 (s.counter + x)) all)
        ∙ inv.counts
    | no l ↦
        let y = owed_by n s.threads in
        let idle : (s.threads t).left ≡ 0 = inv.beyond t (omega arith) in
        let before : owed (s.threads t) ≡ 0 =
          omega (arith, owed_at_bound (s.threads t).pc (s.threads t).left, idle) in
        let after : owed p ≡ 0 = omega (arith, owed_at_bound p.pc p.left, idle, less) in
        ap (λ x. u32 (c + x))
          (let e : owed_by n moved.threads ≡ y + owed p =
              omega (arith, owed_by_beyond n t s.threads p (omega arith), after) in
            e)
        ∙ same y
        ∙ ap (λ x. u32 (s.counter + x))
            (let e : y + owed (s.threads t) ≡ y = omega (arith, before) in e)
        ∙ inv.counts
  ]

  pub Locked-moved :
      Locked n goal s
      → Orderly h c o t p
      → ((j : ℕ) → j ≢ t → Orderly h c o j (s.threads j))
      → p.left ≤ (s.threads t).left
      → ((rest : ℕ) → u32 (c + (rest + owed p)) ≡ u32 (s.counter + (rest + owed (s.threads t))))
      → Locked n goal moved
  Locked-moved inv own others less same = record {
    orderly = λ j. elim (ℕ_discrete t j) [
      | yes e ↦
          subst (λ i. Orderly h c o i (moved.threads i)) e
            (subst (Orderly h c o t) (sym (update_self s.threads t p)) own)
      | no ne ↦
          subst (Orderly h c o j) (sym (update_ne s.threads t j p ne)) (others j (λ e. ne (sym e)))
    ];
    beyond = λ j l. elim (ℕ_discrete t j) [
      | yes e ↦ ground (arith, e, inv.beyond j l, less)
      | no ne ↦ ground (arith, ne, inv.beyond j l)
    ];
    counts = counts-moved inv less same;
  }
