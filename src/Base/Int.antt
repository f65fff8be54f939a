-- ===== src/Base/Int.antt =====
-- Signed integers: an `int` status, an `std::int64_t` count.
use Prim.Native.Nat.{ℕ, zero, suc, ◌+◌, ◌-◌, ◌≤◌, compare, Ordering}
use mathlib.Core.Bool.{Bool, true, false}
use itb_cpp.Base.Tests.{◌==◌, ==_iff}
use mathlib.Core.Path.{◌≡◌, refl, ap}
use mathlib.Core.Logic.{◌≢◌, ◌⊎◌, inl, inr}
use native.Mathlib.Decide.{ℕ_discrete}
use native.Mathlib.Omega.{arith}

-- `negsuc n` is -(n + 1).
pub data ℤ : Type 0 where
  pos : ℕ → ℤ
  negsuc : ℕ → ℤ

-- Is the integer the natural number?
abbrev pub is_nat : ℤ → ℕ → Bool
is_nat (pos n) k = n == k
is_nat (negsuc n) k = false

-- The test tells the number from all others.
pub is_nat-cases :
    (z : ℤ) (k : ℕ) → ((z ≡ pos k) × (is_nat z k ≡ true)) ⊎ ((z ≢ pos k) × (is_nat z k ≡ false))
is_nat-cases (pos n) k = elim (ℕ_discrete n k) [
  | yes e ↦ inl (ap pos e, (==_iff n k).1 e)
  | no h ↦ inr (λ e. h (cc e), ground arith)
]
is_nat-cases (negsuc n) k = inr (λ e. cc e, refl)

pub neg : ℤ → ℤ
neg (pos zero) = pos zero
neg (pos (suc n)) = negsuc n
neg (negsuc n) = pos (suc n)

-- The difference of two natural numbers.
unfoldable pub gap : ℕ → ℕ → ℤ
gap m n = elim (compare m n) [ Ordering.lt ↦ negsuc (n - m - 1) | _ ↦ pos (m - n) ]

infixl 60 ◌+ℤ◌ ◌-ℤ◌
unfoldable pub ◌+ℤ◌ : ℤ → ℤ → ℤ
unfolding gap
pos m +ℤ pos n = pos (m + n)
pos m +ℤ negsuc n = gap m (suc n)
negsuc m +ℤ pos n = gap n (suc m)
negsuc m +ℤ negsuc n = negsuc (suc (m + n))

unfoldable pub ◌-ℤ◌ : ℤ → ℤ → ℤ
unfolding ◌+ℤ◌ neg
a -ℤ b = a +ℤ neg b

-- A counter that does not shrink has the plain difference.
pub sub-pos : (m n : ℕ) → n ≤ m → pos m -ℤ pos n ≡ pos (m - n)
unfolding ◌-ℤ◌ ◌+ℤ◌ neg gap
sub-pos m zero h = ground arith
sub-pos m (suc n) h = ground arith
