-- ===== src/Log/Allowance.antt =====
-- How many blocks the system calls that are using the log may still write.
use model_lib.Base.{ℕ, suc, ◌+◌, ◌*◌, ◌≤◌, ◌≡◌, arith, List, [], ◌∷◌, ◌++◌, length}

unfoldable pub total : List ℕ → ℕ
total [] = 0
total (r ∷ rs) = r + total rs

pub total-append : (xs ys : List ℕ) → total (xs ++ ys) ≡ total xs + total ys
unfolding total
total-append [] ys = omega arith
total-append (x ∷ xs) ys = omega (arith, total-append xs ys)

-- No system call may write more than `maxopblocks` blocks.
pub data Allowed : List ℕ → Type 0 where
  nobody : Allowed []
  one_more : {r : ℕ} {rs : List ℕ} → r ≤ 10 → Allowed rs → Allowed (r ∷ rs)

pub total_bound : {rs : List ℕ} → Allowed rs → total rs ≤ length rs * 10
unfolding total
total_bound nobody = omega arith
total_bound (one_more h a) = omega (arith, h, total_bound a)

Allowed-tail : {r : ℕ} {rs : List ℕ} → Allowed (r ∷ rs) → Allowed rs
Allowed-tail (one_more h a) = a

Allowed-head : {r : ℕ} {rs : List ℕ} → Allowed (r ∷ rs) → r ≤ 10
Allowed-head (one_more h a) = h

pub Allowed-remove :
    (left : List ℕ) (r : ℕ) (right : List ℕ) → Allowed (left ++ r ∷ right) → Allowed (left ++ right)
Allowed-remove [] r right a = Allowed-tail a
Allowed-remove (l ∷ left) r right a =
    one_more (Allowed-head a) (Allowed-remove left r right (Allowed-tail a))

pub Allowed-use :
    (left : List ℕ) (r : ℕ) (right : List ℕ)
    → Allowed (left ++ suc r ∷ right)
    → Allowed (left ++ r ∷ right)
Allowed-use [] r right a = one_more (omega (arith, Allowed-head a)) (Allowed-tail a)
Allowed-use (l ∷ left) r right a =
    one_more (Allowed-head a) (Allowed-use left r right (Allowed-tail a))

pub total_among :
    (left right : List ℕ) (r : ℕ) → total (left ++ r ∷ right) ≡ total left + r + total right
unfolding total
total_among left right r = omega (arith, total-append left (r ∷ right))
