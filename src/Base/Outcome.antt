-- ===== src/Base/Outcome.antt =====
-- What a kernel function can do besides returning: stop the machine by `panic`, or, in a model of
-- a loop, use up its fuel.
use Prim.Native.String.{String}
use mathlib.Core.Path.{◌≡◌, ap}

pub data Outcome {ℓ} (A : Type ℓ) : Type ℓ where
  done : A → Outcome A
  panic : String → Outcome A
  no_fuel : Outcome A

infixl 5 ◌>>=◌
abbrev pub ◌>>=◌ {ℓ κ} : {A : Type ℓ} {B : Type κ} → Outcome A → (A → Outcome B) → Outcome B
done a >>= f = f a
panic w >>= f = panic w
no_fuel >>= f = no_fuel

result_or {ℓ} : {A : Type ℓ} → A → Outcome A → A
result_or d (done a) = a
result_or d (panic w) = d
result_or d no_fuel = d

pub done_injective {ℓ} : {A : Type ℓ} {x y : A} → done x ≡ done y → x ≡ y
unfolding result_or
done_injective {x = x} e = ap (result_or x) e
