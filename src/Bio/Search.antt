-- ===== src/Bio/Search.antt =====
-- kernel/bio.c: the loops of bget.
use model_lib.Base.{
  ℕ, zero, suc, ◌+◌, ◌≤◌, ◌<◌, ◌≡◌, ◌≢◌, ◌∙◌, ap, arith, subst, Bool, true, false, inl, inr,
  Bool-cases, Option, none, some,
}
use native.Mathlib.Decide.{ℕ_discrete}
use model_lib.Base.Outcome.{Outcome, done}
use model_lib.Bio.{Buf, head, scan}

-- What a loop finds among the positions from `k` on, up to position `n`, where `place j` is the buffer that
-- the loop reaches in its round `j`.
pub data Found (n : ℕ) (test : Buf → Bool) (bufs : ℕ → Buf) (place : ℕ → ℕ) (k : ℕ)
    : Outcome (Option ℕ) → Type 0 where
  nowhere :
      ((j : ℕ) → k ≤ j → j ≤ n → test (bufs (place j)) ≡ false)
      → Found n test bufs place k (done none)
  somewhere :
      (i : ℕ)
      → k ≤ i
      → i ≤ n
      → test (bufs (place i)) ≡ true
      → ((j : ℕ) → k ≤ j → j < i → test (bufs (place j)) ≡ false)
      → Found n test bufs place k (done (some (place i)))

-- The loop runs through the positions in their order, and ends at the head.
pub scan-Found :
    (fuel n : ℕ) (test : Buf → Bool) (link : ℕ → ℕ) (bufs : ℕ → Buf) (place : ℕ → ℕ) (k : ℕ)
    → ((j : ℕ) → 0 < j → j ≤ n → place j ≢ head)
    → ((j : ℕ) → 0 < j → j ≤ n → link (place j) ≡ place (j + 1))
    → place (n + 1) ≡ head
    → 0 < k
    → k ≤ n + 1
    → n + 2 ≤ k + fuel
    → Found n test bufs place k (scan fuel test link (place k) bufs)
unfolding scan
scan-Found zero n test link bufs place k other next last positive inside enough =
    absurd (omega arith)
scan-Found (suc fuel) n test link bufs place k other next last positive inside enough =
    elim (ℕ_discrete k (n + 1)) [
      | yes e ↦
          subst (Found n test bufs place k) (ground (arith, e, last))
            (nowhere (λ j h l. absurd (omega (arith, e))))
      | no ne ↦ elim (Bool-cases (test (bufs (place k)))) [
        | inl t ↦
            subst (Found n test bufs place k)
              (ground (arith, t, other k positive (omega (arith, ne))))
              (somewhere k (omega arith) (omega (arith, ne)) t (λ j h l. absurd (omega arith)))
        | inr f ↦
            subst (Found n test bufs place k)
              (ground (
                arith,
                f,
                other k positive (omega (arith, ne)),
                next k positive (omega (arith, ne)),
              ))
              (later f (
                scan-Found fuel n test link bufs place (k + 1) other next last (omega arith)
                  (omega (arith, ne)) (omega arith)))
      ]
    ]
  where
    later :
        {o : Outcome (Option ℕ)}
        → test (bufs (place k)) ≡ false
        → Found n test bufs place (k + 1) o
        → Found n test bufs place k o
    later f (nowhere miss) = nowhere (λ j h l. elim (ℕ_discrete j k) [
      | yes e ↦ ap (λ i. test (bufs (place i))) e ∙ f
      | no ne ↦ miss j (omega (arith, ne)) l
    ])
    later f (somewhere i h l t miss) = somewhere i (omega arith) l t (λ j hj lj.
        elim (ℕ_discrete j k) [
          | yes e ↦ ap (λ i. test (bufs (place i))) e ∙ f
          | no ne ↦ miss j (omega (arith, ne)) lj
        ])
