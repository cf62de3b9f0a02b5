-- ===== src/Common/Sums.antt =====
-- Sums of the first values of a function.
use Prim.Native.Nat.{ℕ, zero, suc, ◌+◌, ◌≤◌, ◌<◌}
use mathlib.Core.Path.{◌≡◌, refl}
use mathlib.Core.Logic.{◌≢◌, inl, inr}
use native.Mathlib.Omega.{arith}
use gjworks.Common.Tests.{equal-cases}

abbrev pub sum_to : ℕ → (ℕ → ℕ) → ℕ
sum_to zero f = 0
sum_to (suc n) f = sum_to n f + f n

sum_to-same : (n : ℕ) (f g : ℕ → ℕ) → ((k : ℕ) → k < n → g k ≡ f k) → sum_to n g ≡ sum_to n f
sum_to-same zero f g h = refl
sum_to-same (suc n) f g h =
    omega (arith, sum_to-same n f g (λ k lt. h k (omega arith)), h n (omega arith))

-- A function that changes at one place.
pub sum_to-change :
    (n k : ℕ) (f g : ℕ → ℕ)
    → k < n
    → ((q : ℕ) → k ≢ q → g q ≡ f q)
    → sum_to n g + f k ≡ sum_to n f + g k
sum_to-change zero k f g lt h = absurd (omega arith)
sum_to-change (suc n) k f g lt h = elim (equal-cases k n) [
  | inl e ↦ rw (e) (omega (arith, sum_to-same n f g (λ q below. h q (λ same. omega arith))))
  | inr ne ↦ omega (arith, sum_to-change n k f g (omega arith) h, h n ne)
]

pub sum_to-le : (n : ℕ) (f g : ℕ → ℕ) → ((k : ℕ) → k < n → f k ≤ g k) → sum_to n f ≤ sum_to n g
sum_to-le zero f g h = omega arith
sum_to-le (suc n) f g h =
    omega (arith, sum_to-le n f g (λ k lt. h k (omega arith)), h n (omega arith))
