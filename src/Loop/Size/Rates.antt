-- ===== src/Loop/Size/Rates.antt =====
-- The sizes and rates of loop/size.cpp that are printed through `double`.
use itb_cpp.Base.{Bool, ℕ, zero, suc, ◌^◌, ◌++◌, Bytes, codes, leb, if◌then◌else◌}
use itb_cpp.Base.Int.{ℤ, pos, negsuc, neg}
use itb_cpp.Base.Decimal.{decimal_int}
use itb_cpp.Loop.Real.{Real}

-- `n >= k`.
unfoldable pub at_least : ℕ → ℤ → Bool
at_least k (pos n) = leb k n
at_least k (negsuc n) = leb k 0

module _ {F : Type 0} (real : Real F) where
  -- A literal.
  abbrev pub literal : ℕ → F
  literal n = real.of_int (pos n)

  unfoldable pub human_bytes : ℤ → Bytes
  unfolding at_least
  human_bytes n =
      if at_least (2 ^ 30) n
      then real.printed 1 (real.div (real.of_int n) (literal (2 ^ 30))) ++ codes "GiB"
      else if at_least (2 ^ 20) n
      then real.printed 1 (real.div (real.of_int n) (literal (2 ^ 20))) ++ codes "MiB"
      else if at_least (2 ^ 10) n
      then real.printed 1 (real.div (real.of_int n) (literal (2 ^ 10))) ++ codes "KiB"
      else decimal_int n ++ codes "B"

  unfoldable pub human_bytes_signed : ℤ → Bytes
  human_bytes_signed (pos n) = codes "+" ++ human_bytes (pos n)
  human_bytes_signed (negsuc n) = codes "-" ++ human_bytes (neg (negsuc n))

  -- A window is not negative.
  unfoldable pub mb_per_sec : ℕ → ℕ → F
  mb_per_sec bytes zero = literal 0
  mb_per_sec bytes (suc ns) =
      real.div (real.div (literal bytes) (literal (2 ^ 20)))
        (real.div (literal (suc ns)) (literal 1000000000))

  unfoldable pub human_rate : ℕ → ℕ → Bytes
  human_rate bytes zero = codes "n/a"
  human_rate bytes (suc ns) = real.printed 1 (mb_per_sec bytes (suc ns)) ++ codes "MB/s"
