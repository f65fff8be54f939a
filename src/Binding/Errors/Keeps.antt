-- ===== src/Binding/Errors/Keeps.antt =====
-- The failure path of src/error.cpp and the invariants of the world.
use itb_cpp.Base.{Bytes}
use itb_cpp.Base.Int.{ℤ}
use itb_cpp.Binding.World.{Library, World}
use itb_cpp.Binding.World.Keeps.{Keeps, IsStable, keeps_rules}
use itb_cpp.Binding.Errors.{last_error, widened, fail, check}

module _ {L : Type 0} (lib : Library L) {I : World L → Type 0} (s : IsStable I) where
  pub last_error-Keeps : Keeps I (last_error lib)
  unfolding last_error widened
  last_error-Keeps = search keeps_rules depth 12

  pub fail-Keeps : {A : Type 0} (rc : ℤ) (what : Bytes) → Keeps I (fail lib {A = A} rc what)
  unfolding fail
  fail-Keeps rc what = search (keeps_rules, last_error-Keeps)

  pub check-Keeps : (rc : ℤ) (what : Bytes) → Keeps I (check lib rc what)
  unfolding check
  check-Keeps rc what = search (keeps_rules, fail-Keeps)
