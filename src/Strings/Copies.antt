-- ===== src/Strings/Copies.antt =====
-- strncpy and safestrcpy of kernel/string.c.
use model_lib.Base.{
  ℕ, zero, suc, ◌+◌, ◌-◌, ◌^◌, ◌≤◌, ◌<◌, ◌≡◌, ◌≢◌, ◌⊎◌, inl, inr, arith, refl, update, ◌∙◌, ap,
  update_ne, update_self, subst, sym,
}
use native.Mathlib.Decide.{ℕ_discrete}
use model_lib.Strings.{Bytes, safestrcpy_from, safestrcpy}

-- After a copy of at most `n` characters from `t` to `s` in which the memory `old` became `new`: a
-- NUL comes at most `n` characters after `s`, before it come the characters of `t`, none of them NUL, and
-- nothing outside the `n + 1` bytes has changed. It comes before the end only where `t` ends.
pub record Terminated (n s t : ℕ) (old new : Bytes) : Type 0 where
  pub end : ℕ
  pub within : end ≤ n
  pub nul : new (s + end) ≡ 0
  pub same : (i : ℕ) → i < end → new (s + i) ≡ old (t + i)
  pub not_nul : (i : ℕ) → i < end → old (t + i) ≢ 0
  pub stops : (end ≡ n) ⊎ (old (t + end) ≡ 0)
  pub outside : (b : ℕ) → (b < s) ⊎ (s + n < b) → new b ≡ old b

-- A character is copied, and then the rest of the string.
Terminated-step :
    (n s t : ℕ) (old new : Bytes)
    → (t + suc n < s) ⊎ (s + suc n < t)
    → old t ≢ 0
    → Terminated n (s + 1) (t + 1) (update old s (old t)) new
    → Terminated (suc n) s t old new
Terminated-step n s t old new apart ne rest = record {
  end = suc (rest.end);
  within = omega (arith, rest.within);
  nul = ap new (let e : s + suc (rest.end) ≡ s + 1 + rest.end = omega arith in e) ∙ rest.nul;
  same = λ i l. elim (ℕ_discrete i 0) [
    | yes z ↦
        subst (λ j. new (s + j) ≡ old (t + j)) (sym z)
          (ap new (let e : s + 0 ≡ s = omega arith in e)
            ∙ rest.outside s (inl (omega arith))
            ∙ update_self old s (old t)
            ∙ ap old (let e : t ≡ t + 0 = omega arith in e))
    | no nz ↦
        ap new (let e : s + i ≡ s + 1 + (i - 1) = omega (arith, nz) in e)
        ∙ rest.same (i - 1) (omega (arith, l, nz))
        ∙ source i (omega (arith, l, rest.within)) nz
  ];
  not_nul = λ i l. elim (ℕ_discrete i 0) [
    | yes z ↦
        subst (λ j. old (t + j) ≢ 0) (sym z)
          (subst (λ a. old a ≢ 0) (let e : t ≡ t + 0 = omega arith in e) ne)
    | no nz ↦
        subst (λ (v : ℕ). v ≢ 0) (source i (omega (arith, l, rest.within)) nz)
          (rest.not_nul (i - 1) (omega (arith, l, nz)))
  ];
  stops = elim rest.stops [
    | inl all ↦ inl (omega (arith, all))
    | inr z ↦ inr (sym (later (rest.end) rest.within) ∙ z)
  ];
  outside = λ b o. rest.outside b (omega (arith, o)) ∙ ground (arith, o);
}
  where
    later : (j : ℕ) → j ≤ n → update old s (old t) (t + 1 + j) ≡ old (t + suc j)
    later j l =
        update_ne old s (t + 1 + j) (old t) (λ e. omega (arith, apart, e, l))
        ∙ ap old (let e : t + 1 + j ≡ t + suc j = omega arith in e)

    source : (i : ℕ) → i ≤ suc n → i ≢ 0 → update old s (old t) (t + 1 + (i - 1)) ≡ old (t + i)
    source i l nz =
        later (i - 1) (omega (arith, l, nz))
        ∙ ap old (let e : t + suc (i - 1) ≡ t + i = omega (arith, nz) in e)

safestrcpy_from-Terminated :
    (n s t : ℕ) (mem : Bytes)
    → (t + n < s) ⊎ (s + n < t)
    → Terminated n s t mem (safestrcpy_from n s t mem)
unfolding safestrcpy_from
safestrcpy_from-Terminated zero s t mem h = record {
  end = 0;
  within = omega arith;
  nul = ground arith;
  same = λ i l. absurd (omega arith);
  not_nul = λ i l. absurd (omega arith);
  stops = inl refl;
  outside = λ b o. ground (arith, o);
}
safestrcpy_from-Terminated (suc n) s t mem h = elim (ℕ_discrete (mem t) 0) [
  | yes e ↦
      subst (Terminated (suc n) s t mem) {x = update (update mem s (mem t)) (s + 1) 0}
        (ground (arith, e))
        record {
          end = 0;
          within = omega arith;
          nul = ground (arith, e);
          same = λ i l. absurd (omega arith);
          not_nul = λ i l. absurd (omega arith);
          stops = inr (ap mem (let same : t + 0 ≡ t = omega arith in same) ∙ e);
          outside = λ b o. ground (arith, o);
        }
  | no ne ↦
      subst (Terminated (suc n) s t mem)
        {x = safestrcpy_from n (s + 1) (t + 1) (update mem s (mem t))} (ground (arith, ne))
        (Terminated-step n s t mem _ h ne
          (safestrcpy_from-Terminated n (s + 1) (t + 1) (update mem s (mem t)) (omega (arith, h))))
]

-- safestrcpy(s, t, n) for a positive n and areas that do not overlap writes at most the `n` bytes
-- from `s` on, and leaves a NUL-terminated string there: the string at `t`, cut to n - 1 characters.
pub safestrcpy-Terminated :
    (s t n : ℕ) (mem : Bytes)
    → 0 < n
    → n < 2 ^ 31
    → (t + n ≤ s) ⊎ (s + n ≤ t)
    → Terminated (n - 1) s t mem (safestrcpy s t n mem)
unfolding safestrcpy
safestrcpy-Terminated s t n mem h l apart =
    subst (Terminated (n - 1) s t mem) (ground arith)
      (safestrcpy_from-Terminated (n - 1) s t mem (omega (arith, apart)))
