-- ===== src/Proc/Find.antt =====
-- The loops of kernel/proc.c that look for the first entry with a property.
use model_lib.Base.{
  ℕ, zero, suc, ◌+◌, ◌≤◌, ◌<◌, ◌≡◌, Bool, true, false, Option, none, some, arith, Bool-cases,
  Option-cases, inl, inr, subst, range_cons,
}
use model_lib.Proc.{Proc, find_from}

-- A result of the search among `n` entries from index `i` on: the first hit, or no hit at all.
abbrev pub Found : (Proc → Bool) → (ℕ → Proc) → ℕ → ℕ → Option ℕ → Type 0
Found test t n i none = (j : ℕ) → i ≤ j → j < i + n → test (t j) ≡ false
Found test t n i (some k) =
    (i ≤ k) × (k < i + n) × (test (t k) ≡ true) × ((j : ℕ) → i ≤ j → j < k → test (t j) ≡ false)

module _ (test : Proc → Bool) (t : ℕ → Proc) where
  Found-later :
      (n i : ℕ) (o : Option ℕ)
      → test (t i) ≡ false
      → Found test t n (i + 1) o
      → Found test t (suc n) i o
  Found-later n i none miss h = range_cons (λ j. test (t j) ≡ false) i n miss h
  Found-later n i (some k) miss h = (
    omega arith,
    omega arith,
    h.2,
    λ j p q.
        range_cons (λ j. j < k → test (t j) ≡ false) i n (λ _. miss) (λ j p r. h.3 j p) j p
          (omega arith) q,
  )

  pub find_from-Found : (n i : ℕ) → Found test t n i (find_from test t n i)
  unfolding find_from
  find_from-Found zero i = λ j p q. absurd (omega arith)
  find_from-Found (suc n) i = elim (Bool-cases (test (t i))) [
    | inl hit ↦ rw hit (omega arith, omega arith, hit, λ j p q. absurd (omega arith))
    | inr miss ↦ rw miss (Found-later n i _ miss (find_from-Found n (i + 1)))
  ]

  -- A hit in the range makes the search return one.
  pub find_from_hit :
      (n i j : ℕ)
      → i ≤ j
      → j < i + n
      → test (t j) ≡ true
      → (k : ℕ) × (find_from test t n i ≡ some k) × Found test t n i (some k)
  find_from_hit n i j h l hit = elim (Option-cases (find_from test t n i)) [
    | inl e ↦ absurd (clash (subst (Found test t n i) e (find_from-Found n i) j h l))
    | inr (k, e) ↦ (k, e, subst (Found test t n i) e (find_from-Found n i))
  ]
    where
      clash : test (t j) ≡ false → ⊥
      clash miss = cc
