-- ===== src/Binding/Errors/Throws.antt =====
-- The ways out of `fail` and `check`, whatever the library's diagnostic is.
use itb_cpp.Base.{◌≡◌, ◌≢◌, ◌⊎◌, refl, Bytes, inl, inr}
use itb_cpp.Base.Int.{ℤ, pos, is_nat-cases}
use itb_cpp.Binding.Status.{to_status}
use itb_cpp.Binding.World.{Library, World, Outcome, ret, raise, itb_error, ◌>>=◌}
use itb_cpp.Binding.World.Total.{Total, total_rules}
use itb_cpp.Binding.Errors.{last_error, widened, fail, check, error_text}

module _ {L : Type 0} (lib : Library L) where
  last_error-Total : Total (last_error lib)
  unfolding last_error widened
  last_error-Total = search total_rules depth 12

  -- The text of the failed call, with a diagnostic that the library gave.
  abbrev pub Throws : {A : Type 0} → ℤ → Bytes → Outcome L A → Type 0
  Throws rc what o =
      (diag : Bytes) × (w' : World L) × (o
        ≡ raise (itb_error (to_status rc) (error_text lib rc what diag)) w')

  -- `[[noreturn]]`.
  pub fail-Throws :
      (A : Type 0) (rc : ℤ) (what : Bytes) (w : World L)
      → Throws rc what (fail lib {A = A} rc what w)
  unfolding fail
  fail-Throws A rc what w =
      let (diag, w', e) = last_error-Total.returns w in (diag, w', rw (e, ◌>>=◌))

  -- `check` returns on the code 0 only, and then it has done nothing.
  pub check-cases :
      (rc : ℤ) (what : Bytes) (w : World L)
      → ((rc ≡ pos 0) × (check lib rc what w ≡ ret tt w))
        ⊎ ((rc ≢ pos 0) × Throws rc what (check lib rc what w))
  unfolding check
  check-cases rc what w = elim (is_nat-cases rc 0) [
    | inl (e, t) ↦ inl (e, rw t)
    | inr (ne, t) ↦ inr (ne, rw t (fail-Throws (Unit {0}) rc what w))
  ]

  pub check-zero : (what : Bytes) (w : World L) → check lib (pos 0) what w ≡ ret tt w
  unfolding check
  check-zero what w = refl
