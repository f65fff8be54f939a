-- ===== src/Binding/Buffers/Quiet.antt =====
-- The cipher dispatch of src/pipeline.cpp returns or throws an `itb::Error`.
use itb_cpp.Base.{ℕ, List, Bytes}
use itb_cpp.Binding.World.{Library, Reply, Call, ffi_logged}
use itb_cpp.Binding.World.Ways.{Quiet, quiet_rules}
use itb_cpp.Binding.Buffers.{Attempt, settle, scratch, cipher_retry, cipher_attempt, cipher_call}
use itb_cpp.Binding.Pipeline.Quiet.{check-Quiet, fail-Quiet}

-- Of the calls made, nothing is said.
abbrev pub AnyCall : List Call → Type 0
AnyCall cs = Unit {0}

module _ {L : Type 0} (lib : Library L) where
  logged-Quiet :
      {A : Type 0} (entry : A → Call) (f : L → A × L) → Quiet AnyCall AnyCall (ffi_logged entry f)
  logged-Quiet entry f = record { quiet = λ w i. i }

  scratch-Quiet : (cap : ℕ) → Quiet AnyCall AnyCall (scratch lib cap)
  unfolding scratch
  scratch-Quiet cap = record { quiet = λ w i. i }

  settle-Quiet :
      {A : Type 0} (a : Attempt A) (what : Bytes) → Quiet AnyCall AnyCall (settle lib a what)
  unfolding settle
  settle-Quiet a what = search (quiet_rules, check-Quiet, fail-Quiet)

  retry-Quiet :
      (fn : ℕ → L → Reply × L) (n : ℕ) (buf : Bytes)
      → Quiet AnyCall AnyCall (cipher_retry lib fn n buf)
  unfolding cipher_retry
  retry-Quiet fn n buf = search (quiet_rules, logged-Quiet, scratch-Quiet) depth 12

  attempt-Quiet :
      (fn : ℕ → L → Reply × L) (cap : ℕ) → Quiet AnyCall AnyCall (cipher_attempt lib fn cap)
  unfolding cipher_attempt
  attempt-Quiet fn cap = search (quiet_rules, logged-Quiet, scratch-Quiet, retry-Quiet) depth 12

  pub call-Quiet :
      (fn : ℕ → L → Reply × L) (src what : Bytes)
      → Quiet AnyCall AnyCall (cipher_call lib fn src what)
  unfolding cipher_call
  call-Quiet fn src what = search (quiet_rules, attempt-Quiet, settle-Quiet) depth 12
