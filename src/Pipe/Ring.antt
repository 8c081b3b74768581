-- ===== src/Pipe/Ring.antt =====
-- The ring of kernel/pipe.c stands for a queue of bytes.
use model_lib.Base.{
  ℕ, zero, suc, ◌+◌, ◌%◌, ◌^◌, ◌≤◌, ◌<◌, ◌≡◌, ◌≢◌, arith, refl, ◌==◌, List, [], ◌∷◌, ◌++◌, length,
  get_or, update, ◌∙◌, sym, ap, length-append, update_self, update_ne,
}
use native.Mathlib.Decide.{ℕ_discrete}
use model_lib.Base.Words.{u32}
use model_lib.Pipe.{Pipe, is_full, put, fresh}

-- The bytes `q`, the oldest first, are in the ring.
pub record Holds (p : Pipe) (q : List ℕ) : Type 0 where
  pub fits : length q ≤ 512
  pub word : p.nread < 2 ^ 32
  pub written : p.nwrite ≡ u32 (p.nread + length q)
  pub bytes : (j : ℕ) → j < length q → p.data_at (u32 (p.nread + j) % 512) ≡ get_or q j 0

pub fresh-Holds : (p : Pipe) → Holds (fresh p) []
unfolding fresh
fresh-Holds p = record {
  fits = omega arith;
  word = omega arith;
  written = refl;
  bytes = λ j h. absurd (omega arith);
}

pub is_full_iff : (p : Pipe) (q : List ℕ) → Holds p q → is_full p ≡ (length q == 512)
is_full_iff p q h = elim (ℕ_discrete (length q) 512) [
  | yes e ↦ ground (arith, h.written, e)
  | no ne ↦ ground (
    arith,
    ne,
    let d : p.nwrite ≢ u32 (p.nread + 512) = λ e. omega (arith, h.written, h.fits, h.word, e) in d,
  )
]

get_or-append_left :
    (xs ys : List ℕ) (j : ℕ) → j < length xs → get_or (xs ++ ys) j 0 ≡ get_or xs j 0
get_or-append_left [] ys j h = absurd (omega arith)
get_or-append_left (x ∷ xs) ys zero h = refl
get_or-append_left (x ∷ xs) ys (suc j) h = get_or-append_left xs ys j (omega arith)

get_or-append_last : (xs : List ℕ) (y : ℕ) → get_or (xs ++ y ∷ []) (length xs) 0 ≡ y
get_or-append_last [] y = refl
get_or-append_last (x ∷ xs) y = get_or-append_last xs y

pub put-Holds :
    (p : Pipe) (q : List ℕ) (ch : ℕ) → Holds p q → length q < 512 → Holds (put ch p) (q ++ ch ∷ [])
unfolding put
put-Holds p q ch h l = record {
  fits = omega (arith, long, l);
  word = h.word;
  written = omega (arith, h.written, long);
  bytes = λ j k. elim (ℕ_discrete j (length q)) [
    | yes e ↦
        ap (update p.data_at (p.nwrite % 512) ch) (
          let same : u32 (p.nread + j) % 512 ≡ p.nwrite % 512 = ground (arith, e, h.written) in
          same)
        ∙ update_self p.data_at (p.nwrite % 512) ch
        ∙ sym (ap (λ i. get_or (q ++ ch ∷ []) i 0) e ∙ get_or-append_last q ch)
    | no ne ↦
        update_ne p.data_at (p.nwrite % 512) (u32 (p.nread + j) % 512) ch
          (λ e. omega (arith, e, h.written, h.word, k, ne, l, long))
        ∙ h.bytes j (omega (arith, k, ne, long))
        ∙ sym (get_or-append_left q (ch ∷ []) j (omega (arith, k, ne, long)))
  ];
}
  where
    long : length (q ++ ch ∷ []) ≡ length q + 1
    long = omega (arith, length-append q (ch ∷ []))

-- The oldest byte is at the read index, and the ring without it holds the others.
abbrev pub taken : Pipe → Pipe
taken p = record p { nread = u32 (p.nread + 1) }

pub oldest : (p : Pipe) (b : ℕ) (q : List ℕ) → Holds p (b ∷ q) → p.data_at (p.nread % 512) ≡ b
oldest p b q h =
    ap p.data_at (let e : p.nread % 512 ≡ u32 (p.nread + 0) % 512 = omega (arith, h.word) in e)
    ∙ h.bytes 0 (omega arith)

pub taken-Holds : (p : Pipe) (b : ℕ) (q : List ℕ) → Holds p (b ∷ q) → Holds (taken p) q
taken-Holds p b q h = record {
  fits = omega (arith, h.fits);
  word = omega arith;
  written = omega (arith, h.written);
  bytes = λ j k.
      ap p.data_at
        (let e : u32 (u32 (p.nread + 1) + j) % 512 ≡ u32 (p.nread + suc j) % 512 = omega arith in e)
      ∙ h.bytes (suc j) (omega (arith, k));
}

pub is_empty_iff : (p : Pipe) (q : List ℕ) → Holds p q → (p.nread == p.nwrite) ≡ (length q == 0)
is_empty_iff p q h = elim (ℕ_discrete (length q) 0) [
  | yes e ↦
      let same : p.nread ≡ p.nwrite = omega (arith, h.written, h.word, e) in ground (arith, same, e)
  | no ne ↦ ground (
    arith,
    ne,
    let d : p.nread ≢ p.nwrite = λ e. omega (arith, h.written, h.fits, h.word, e) in d,
  )
]
