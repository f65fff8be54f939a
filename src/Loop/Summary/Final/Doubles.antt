-- ===== src/Loop/Summary/Final/Doubles.antt =====
-- What the summary relies on of the machine's `double`.
use itb_cpp.Base.{ℕ, zero, suc, ◌+◌, ◌^◌, ◌≤◌, ◌<◌, arith}
use itb_cpp.Base.Int.{ℤ, pos, negsuc}
use itb_cpp.Loop.Real.{Real}
use itb_cpp.Loop.Size.Rates.{literal, mb_per_sec}
use itb_cpp.Loop.Summary.Document.Digits.{IsNumeral}
use itb_cpp.Loop.Summary.Final.{miss_percent, rss_growth}

-- Magnitudes by powers of two: `Within k x` says that `x` is finite and at most 2 ^ k in magnitude,
-- `AtLeast k x` that it is at least 2 ^ -k. Rounding keeps both, since the powers are values of
-- the type; below 2 ^ 1000 nothing overflows, and `printf` with a fraction shows a finite value as a
-- sign, digits, a point and digits.
pub record Laws {F : Type 0} (real : Real F) : Type 1 where
  pub Within : ℕ → F → Type 0
  pub AtLeast : ℕ → F → Type 0
  pub of_int-Within : (z : ℤ) → Within 64 (real.of_int z)
  pub of_int-AtLeast : (n : ℕ) → 0 < n → AtLeast 0 (real.of_int (pos n))
  pub mul-Within :
      (a b : ℕ) (x y : F) → a + b ≤ 1000 → Within a x → Within b y → Within (a + b) (real.mul x y)
  pub div-Within :
      (a b : ℕ) (x y : F) → a + b ≤ 1000 → Within a x → AtLeast b y → Within (a + b) (real.div x y)
  pub div-AtLeast :
      (a b : ℕ) (x y : F) → a + b ≤ 1000 → AtLeast a x → Within b y → AtLeast (a + b) (real.div x y)
  pub shown-IsNumeral :
      (d k : ℕ) (x : F) → k ≤ 1000 → Within k x → IsNumeral (real.printed (suc d) x)

module _ {F : Type 0} (real : Real F) (laws : Laws real) where
  open laws use {
    Within, AtLeast, of_int-Within, of_int-AtLeast, mul-Within, div-Within, div-AtLeast,
    shown-IsNumeral,
  }

  pub seconds-IsNumeral :
      (ns : ℕ) → IsNumeral (real.printed 3 (real.div (literal real ns) (literal real 1000000000)))
  seconds-IsNumeral ns = shown-IsNumeral 2 (64 + 0) _ (omega arith) (
      div-Within 64 0 _ _ (omega arith) (of_int-Within (pos ns))
        (of_int-AtLeast 1000000000 (omega arith)))

  pub rate-IsNumeral : (bytes ns : ℕ) → IsNumeral (real.printed 1 (mb_per_sec real bytes ns))
  unfolding mb_per_sec
  rate-IsNumeral bytes zero = shown-IsNumeral 0 64 _ (omega arith) (of_int-Within (pos 0))
  rate-IsNumeral bytes (suc ns) = shown-IsNumeral 0 (64 + 0 + (0 + 64)) _ (omega arith) (
      div-Within (64 + 0) (0 + 64) _ _ (omega arith)
        (div-Within 64 0 _ _ (omega arith) (of_int-Within (pos bytes))
          (of_int-AtLeast (2 ^ 20) (omega arith)))
        (div-AtLeast 0 64 _ _ (omega arith) (of_int-AtLeast (suc ns) (omega arith))
          (of_int-Within (pos 1000000000))))

  hundredfold :
      (d : ℕ) (z : ℤ) (n : ℕ)
      → IsNumeral (
          real.printed
            (suc d)
            (real.div (real.mul (literal real 100) (real.of_int z)) (literal real (suc n))))
  hundredfold d z n = shown-IsNumeral d (64 + 64 + 0) _ (omega arith) (
      div-Within (64 + 64) 0 _ _ (omega arith)
        (mul-Within 64 64 _ _ (omega arith) (of_int-Within (pos 100)) (of_int-Within z))
        (of_int-AtLeast (suc n) (omega arith)))

  nothing_shown : (d : ℕ) → IsNumeral (real.printed (suc d) (literal real 0))
  nothing_shown d = shown-IsNumeral d 64 _ (omega arith) (of_int-Within (pos 0))

  pub percent-IsNumeral : (miss get : ℤ) → IsNumeral (real.printed 2 (miss_percent real miss get))
  unfolding miss_percent
  percent-IsNumeral miss (pos zero) = nothing_shown 1
  percent-IsNumeral miss (pos (suc get)) = hundredfold 1 miss get
  percent-IsNumeral miss (negsuc get) = nothing_shown 1

  pub growth-IsNumeral :
      (delta : ℤ) (warmup : ℕ) → IsNumeral (real.printed 2 (rss_growth real delta warmup))
  unfolding rss_growth
  growth-IsNumeral delta zero = nothing_shown 1
  growth-IsNumeral delta (suc warmup) = hundredfold 1 delta warmup
