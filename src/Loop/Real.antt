-- ===== src/Loop/Real.antt =====
-- What the harness asks of the machine's `double` and of the C library about it. It is a parameter: a
-- literal of the source is a whole number that a `double` holds exactly.
use itb_cpp.Base.{Bool, ℕ, Bytes}
use itb_cpp.Base.Int.{ℤ}

-- `of_int` converts an `std::int64_t`; a number past the bounds of that type, which the source does
-- not have, is taken as the nearer bound. `printed d x` is `printf("%.*f", d, x)`. `strtod` answers the
-- value and how many bytes it has read, 0 for none.
pub record Real (F : Type 0) : Type 0 where
  pub of_int : ℤ → F
  pub add : F → F → F
  pub mul : F → F → F
  pub div : F → F → F
  pub lt : F → F → Bool
  pub to_int : F → ℤ
  pub printed : ℕ → F → Bytes
  pub strtod : Bytes → F × ℕ
