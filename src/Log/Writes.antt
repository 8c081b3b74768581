-- ===== src/Log/Writes.antt =====
-- The writes that the loops of kernel/log.c make, as lists, and what the disk holds after them.
use model_lib.Base.{
  ℕ, zero, suc, ◌+◌, ◌≤◌, ◌<◌, ◌≡◌, ◌≢◌, ◌⊎◌, inl, inr, arith, refl, ◌==◌, ◌||◌, Bool, true, false,
  if◌then◌else◌, List, [], ◌∷◌, get_or, ◌∙◌,
}
use native.Mathlib.Decide.{ℕ_discrete}
use model_lib.Log.{Block, replay}

-- A history of writes as it was at some time before.
pub data Earlier {ℓ} {A : Type ℓ} : List A → List A → Type ℓ where
  now : {w : List A} → Earlier w w
  before : {v w : List A} {x : A} → Earlier v w → Earlier v (x ∷ w)

pub Earlier-cons {ℓ} :
    {A : Type ℓ} {v w : List A} {x : A} → Earlier v (x ∷ w) → (v ≡ x ∷ w) ⊎ Earlier v w
Earlier-cons now = inl refl
Earlier-cons (before e) = inr e

pub Earlier-nil {ℓ} : {A : Type ℓ} {v : List A} → Earlier v [] → v ≡ []
Earlier-nil now = refl

-- Neither the header of the log nor one of its blocks.
abbrev pub Outside : ℕ → ℕ → Type 0
Outside start b = (b < start) ⊎ (start + 30 < b)

module _ (f : ℕ → Block) (block : List ℕ) where
  abbrev pub entry : ℕ → ℕ
  entry t = get_or block t 0

  -- The entries from `t` on, each written at its home.
  unfoldable pub installs : ℕ → ℕ → List (ℕ × Block) → List (ℕ × Block)
  installs zero t w = w
  installs (suc k) t w = installs k (t + 1) ((entry t, f (entry t)) ∷ w)

  -- The entries from `t` on, each written to its place in the log.
  unfoldable pub logs : ℕ → ℕ → ℕ → List (ℕ × Block) → List (ℕ × Block)
  logs start zero t w = w
  logs start (suc k) t w = logs start k (t + 1) ((start + t + 1, f (entry t)) ∷ w)

  unfoldable pub listed : ℕ → ℕ → ℕ → Bool
  listed zero t b = false
  listed (suc k) t b = entry t == b || listed k (t + 1) b

  -- After the installation a listed block holds what `f` gives it.
  pub replay-installs :
      (base : ℕ → Block) (k t b : ℕ) (w : List (ℕ × Block))
      → replay base (installs k t w) b ≡ (if listed k t b then f b else replay base w b)
  unfolding replay installs listed
  replay-installs base zero t b w = refl
  replay-installs base (suc k) t b w =
      ground (arith, replay-installs base k (t + 1) b ((entry t, f (entry t)) ∷ w))

  pub replay-logs_other :
      (base : ℕ → Block) (start k t b : ℕ) (w : List (ℕ × Block))
      → (b ≤ start + t) ⊎ (start + t + k < b)
      → replay base (logs start k t w) b ≡ replay base w b
  unfolding replay logs
  replay-logs_other base start zero t b w h = refl
  replay-logs_other base start (suc k) t b w h =
      replay-logs_other base start k (t + 1) b ((start + t + 1, f (entry t)) ∷ w) (omega arith)
      ∙ ground arith

  pub replay-logs-entry :
      (base : ℕ → Block) (start k t j : ℕ) (w : List (ℕ × Block))
      → t ≤ j
      → j < t + k
      → replay base (logs start k t w) (start + j + 1) ≡ f (entry j)
  unfolding replay logs
  replay-logs-entry base start zero t j w h l = absurd (omega arith)
  replay-logs-entry base start (suc k) t j w h l = elim (ℕ_discrete t j) [
    | yes e ↦
        replay-logs_other base start k (t + 1) (start + j + 1) _ (inl (omega arith))
        ∙ rw e (ground arith)
    | no ne ↦ replay-logs-entry base start k (t + 1) j _ (omega arith) (omega arith)
  ]

  pub Earlier-installs :
      (k t : ℕ) (w v : List (ℕ × Block))
      → Earlier v (installs k t w)
      → Earlier v w ⊎ ((j : ℕ) × (j ≤ k) × (v ≡ installs j t w))
  unfolding installs
  Earlier-installs zero t w v e = inl e
  Earlier-installs (suc k) t w v e = go (Earlier-installs k (t + 1) _ v e)
    where
      go :
          Earlier v ((entry t, f (entry t)) ∷ w)
            ⊎ ((j : ℕ) × (j ≤ k) × (v ≡ installs j (t + 1) ((entry t, f (entry t)) ∷ w)))
          → Earlier v w ⊎ ((j : ℕ) × (j ≤ suc k) × (v ≡ installs j t w))
      go (inl e) = elim (Earlier-cons e) [
        | inl same ↦ inr (1, omega arith, same)
        | inr older ↦ inl older
      ]
      go (inr (j, h, e)) = inr (suc j, omega arith, e)

  pub Earlier-logs :
      (start k t : ℕ) (w v : List (ℕ × Block))
      → Earlier v (logs start k t w)
      → Earlier v w ⊎ ((j : ℕ) × (j ≤ k) × (v ≡ logs start j t w))
  unfolding logs
  Earlier-logs start zero t w v e = inl e
  Earlier-logs start (suc k) t w v e = go (Earlier-logs start k (t + 1) _ v e)
    where
      go :
          Earlier v ((start + t + 1, f (entry t)) ∷ w)
            ⊎ ((j : ℕ) × (j ≤ k) × (v ≡ logs start j (t + 1) ((start + t + 1, f (entry t)) ∷ w)))
          → Earlier v w ⊎ ((j : ℕ) × (j ≤ suc k) × (v ≡ logs start j t w))
      go (inl e) = elim (Earlier-cons e) [
        | inl same ↦ inr (1, omega arith, same)
        | inr older ↦ inl older
      ]
      go (inr (j, h, e)) = inr (suc j, omega arith, e)

pub listed_more :
    (f : ℕ → Block) (block : List ℕ) (j k t b : ℕ)
    → j ≤ k
    → listed f block j t b ≡ true
    → listed f block k t b ≡ true
unfolding listed
listed_more f block zero k t b h e = ground (arith, e)
listed_more f block (suc j) zero t b h e = absurd (omega arith)
listed_more f block (suc j) (suc k) t b h e =
    ground (arith, listed_more f block j k (t + 1) b (omega arith))

listed_not :
    (f : ℕ → Block) (block : List ℕ) (k t b : ℕ)
    → ((j : ℕ) → t ≤ j → j < t + k → get_or block j 0 ≢ b)
    → listed f block k t b ≡ false
unfolding listed
listed_not f block zero t b h = refl
listed_not f block (suc k) t b h = ground (
  arith,
  h t (omega arith) (omega arith),
  listed_not f block k (t + 1) b (λ j l m. h j (omega arith) (omega arith)),
)

-- The homes of a transaction lie outside the log.
pub listed_inside :
    (f : ℕ → Block) (block : List ℕ) (start k b : ℕ)
    → ((j : ℕ) → j < k → Outside start (get_or block j 0))
    → start ≤ b
    → b ≤ start + 30
    → listed f block k 0 b ≡ false
listed_inside f block start k b out l m =
    listed_not f block k 0 b (λ i l1 m1 e. ground (arith, out i (omega arith), e))
