-- ===== src/Binding/Buffers/Wiping.antt =====
-- `buf_call` of src/pipeline.cpp and the contents of the storage that it gives back.
use itb_cpp.Base.{ℕ, List, Bytes, All}
use itb_cpp.Binding.World.{Library, World, Reply, Call, ffi_entered, release}
use itb_cpp.Binding.World.Keeps.{Keeps, IsStable, keeps_rules}
use itb_cpp.Binding.Memory.{wipe_bytes, wipe_bytes-IsZero, IsZero}
use itb_cpp.Binding.Errors.Keeps.{check-Keeps, fail-Keeps}
use itb_cpp.Binding.Buffers.{Attempt, settle, buf_retry, buf_attempt, buf_call}

-- All storage released so far held only zeros when it was released.
abbrev pub IsClean : {L : Type 0} → World L → Type 0
IsClean w = All (All IsZero) w.released

pub IsClean-IsStable : {L : Type 0} → IsStable {L = L} IsClean
IsClean-IsStable w l i = i

pub release_wiped-IsClean :
    {L : Type 0} (buf : Bytes) → Keeps {L = L} IsClean (release (wipe_bytes buf))
release_wiped-IsClean buf = record { keeps = λ w i. (wipe_bytes-IsZero buf, i) }

module _ {L : Type 0} (lib : Library L) where
  pub settle-Keeps :
      {I : World L → Type 0}
      → IsStable I
      → {A : Type 0} (a : Attempt A) (what : Bytes) → Keeps I (settle lib a what)
  unfolding settle
  settle-Keeps s a what = search (keeps_rules, check-Keeps lib s, fail-Keeps lib s)

  entered-IsClean :
      {A : Type 0} (log : A → List Call) (f : L → A × L) → Keeps {L = L} IsClean (ffi_entered log f)
  entered-IsClean log f = record { keeps = λ w i. i }

  buf_retry-IsClean :
      {A : Type 0} (log : Reply × A → List Call) (fn : ℕ → L → (Reply × A) × L) (n : ℕ)
      (buf : Bytes)
      → Keeps IsClean (buf_retry lib log fn n buf)
  unfolding buf_retry
  buf_retry-IsClean log fn n buf = search (keeps_rules, release_wiped-IsClean, entered-IsClean)

  buf_attempt-IsClean :
      {A : Type 0} (log : Reply × A → List Call) (fn : ℕ → L → (Reply × A) × L)
      → Keeps IsClean (buf_attempt lib log fn)
  unfolding buf_attempt
  buf_attempt-IsClean log fn = search (keeps_rules, buf_retry-IsClean, entered-IsClean)

  -- No buffer that `buf_call` used is given back with a byte of its contents left, on the return
  -- and on every throw, whatever the library answers.
  pub buf_call-IsClean :
      {A : Type 0} (log : Reply × A → List Call) (fn : ℕ → L → (Reply × A) × L) (what : Bytes)
      → Keeps IsClean (buf_call lib log fn what)
  unfolding buf_call
  buf_call-IsClean log fn what =
      search
        (keeps_rules, buf_attempt-IsClean, settle-Keeps IsClean-IsStable, release_wiped-IsClean)
