-- ===== src/Binding/Errors/Diagnosis.antt =====
-- `last_error`, `fail` and `check` against a library that reports its diagnostics as documented.
use itb_cpp.Base.{
  lt→ltb, ◌≢◌, ◌⊎◌, ℕ, suc, ◌≤◌, ◌<◌, ◌≡◌, arith, [], ◌∷◌, ◌++◌, some, Bytes, codes, length, All,
  inl, inr, dec_lt,
}
use itb_cpp.Base.Int.{ℤ, pos, is_nat-cases}
use itb_cpp.Base.Decimal.{decimal_int}
use itb_cpp.Binding.Status.{to_status}
use itb_cpp.Binding.World.{Library, World, ret, raise, itb_error, ◌>>=◌}
use itb_cpp.Binding.Memory.{zeros, overwrite, c_string, IsNonzero, c_string-overwrite, length-zeros}
use itb_cpp.Binding.Errors.{last_error, error_text, fail, check, widened}

-- The library holds one diagnostic text: a buffer with room for it and its NUL gets both, and a
-- smaller one gets the code 5 and the size that was needed.
pub record Diagnoses {L : Type 0} (lib : Library L) (diagnostic : L → Bytes) : Type 0 where
  pub no_nul : (l : L) → All IsNonzero (diagnostic l)
  pub fits :
      (cap : ℕ) (l : L)
      → length (diagnostic l) < cap
      → lib.last_error cap l ≡ (
        record {
          rc = pos 0;
          len = some (suc (length (diagnostic l)));
          out = diagnostic l ++ 0 ∷ [];
        },
        l,
      )
  pub small :
      (cap : ℕ) (l : L)
      → cap ≤ length (diagnostic l)
      → lib.last_error cap l
        ≡ (record { rc = pos 5; len = some (suc (length (diagnostic l))); out = [] }, l)

module _ {L : Type 0} (lib : Library L) (diagnostic : L → Bytes)
    (d : Diagnoses lib diagnostic) where
  open d use {no_nul, fits, small}

  -- A buffer of `cap` bytes gives the whole text back.
  read_back :
      (cap : ℕ) (l : L)
      → length (diagnostic l) < cap
      → c_string (overwrite (diagnostic l ++ 0 ∷ []) (zeros cap)) ≡ diagnostic l
  read_back cap l h =
      c_string-overwrite (diagnostic l) (zeros cap) (no_nul l) (omega (arith, length-zeros cap))

  -- The diagnostic is returned whole, however long it is, and nothing else changes.
  pub last_error_lem : (w : World L) → last_error lib w ≡ ret (diagnostic w.lib) w
  unfolding last_error
  last_error_lem w = elim (dec_lt (length (diagnostic w.lib)) 2048) [
    | yes short ↦ rw (fits 2048 w.lib short, read_back 2048 w.lib short)
    | no long ↦
        let n = length (diagnostic w.lib) in
        rw (
          small 2048 w.lib (omega arith),
          lt→ltb 1 (suc n) (omega arith),
          widened,
          fits (suc n) w.lib (omega arith),
          read_back (suc n) w.lib (omega arith),
        )
  ]

  -- A failing status is thrown as the error with that status, its number and the whole diagnostic.
  pub fail_lem :
      {A : Type 0} (rc : ℤ) (what : Bytes) (w : World L)
      → fail lib {A = A} rc what w
        ≡ raise (itb_error (to_status rc) (error_text lib rc what (diagnostic w.lib))) w
  unfolding fail
  fail_lem rc what w = rw (last_error_lem w, ◌>>=◌)

  -- Against a library that reports its diagnostics as documented, `check` passes the code 0 on with
  -- no call of the library, and throws every other code with its status and the text
  -- `<what>: status <code>: <diagnostic>`, the diagnostic whole.
  pub check_lem :
      (rc : ℤ) (what : Bytes) (w : World L)
      → ((rc ≡ pos 0) × (check lib rc what w ≡ ret tt w))
        ⊎ ((rc ≢ pos 0)
            × (check lib rc what w
                ≡ raise
                    (itb_error (to_status rc) (
                      what
                      ++ codes ": status "
                      ++ decimal_int rc
                      ++ codes ": "
                      ++ diagnostic w.lib))
                    w))
  unfolding check
  check_lem rc what w = elim (is_nat-cases rc 0) [
    | inl (e, test) ↦ inl (e, rw test)
    | inr (h, test) ↦ inr (h, rw test (fail_lem rc what w))
  ]
