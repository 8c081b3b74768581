-- ===== src/Base/Maps.antt =====
-- Memory, disks and tables as functions from addresses: update at one address.
use Prim.Native.Nat.{ℕ, suc, ◌+◌, ◌≤◌, ◌<◌}
use mathlib.Core.Path.{◌≡◌, subst}
use mathlib.Core.Logic.{◌≢◌}
use native.Mathlib.Decide.{dec_lt}
use native.Mathlib.Omega.{arith}
use model_lib.Base.Tests.{◌==◌, if◌then◌else◌}

module _ {ℓ} {A : Type ℓ} where
  abbrev pub update : (ℕ → A) → ℕ → A → ℕ → A
  update f a v b = if a == b then v else f b

  pub update_self : (f : ℕ → A) (a : ℕ) (v : A) → update f a v a ≡ v
  update_self f a v = ground arith

  pub update_ne : (f : ℕ → A) (a b : ℕ) (v : A) → a ≢ b → update f a v b ≡ f b
  update_ne f a b v h = ground arith

-- What holds at the first index of a range and at the later ones holds in the range.
pub range_cons {ℓ} :
    (P : ℕ → Type ℓ) (i n : ℕ)
    → P i
    → ((j : ℕ) → i + 1 ≤ j → j < i + 1 + n → P j)
    → (j : ℕ) → i ≤ j
    → j < i + suc n
    → P j
range_cons P i n first later j h k = elim (dec_lt i j) [
  | yes above ↦ later j (omega arith) (omega arith)
  | no here ↦ subst P (omega arith) first
]
