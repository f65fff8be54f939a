-- ===== src/Binding/Pipeline/Quiet.antt =====
-- The calls of src/pipeline.cpp that enter no call on a handle: an invariant of the calls made is kept.
use itb_cpp.Base.{ℕ, List, [], Bytes}
use itb_cpp.Base.Int.{ℤ}
use itb_cpp.Binding.World.{Library, Reply, Call, ffi_entered}
use itb_cpp.Binding.World.Ways.{Quiet, quiet_rules}
use itb_cpp.Binding.Errors.{last_error, widened, fail, check}
use itb_cpp.Binding.Buffers.{Attempt, settle, buf_retry, buf_attempt, buf_call}
use itb_cpp.Binding.Pipeline.{Pipeline, save, rekey, inspect, lookup}
use itb_cpp.Binding.Runtime.{
  pool_stats_len, pool_stats, write_heap_profile, drbg_auto_tier, text_call,
}

module _ {L : Type 0} (lib : Library L) {I : List Call → Type 0} where
  pub last_error-Quiet : {T : List Call → Type 0} → Quiet I T (last_error lib)
  unfolding last_error widened
  last_error-Quiet = search quiet_rules depth 12

  pub fail-Quiet : {A : Type 0} (rc : ℤ) (what : Bytes) → Quiet I I (fail lib {A = A} rc what)
  unfolding fail
  fail-Quiet rc what = search (quiet_rules, last_error-Quiet)

  pub check-Quiet : (rc : ℤ) (what : Bytes) → Quiet I I (check lib rc what)
  unfolding check
  check-Quiet rc what = search (quiet_rules, fail-Quiet)

  settle-Quiet : {A : Type 0} (a : Attempt A) (what : Bytes) → Quiet I I (settle lib a what)
  unfolding settle
  settle-Quiet a what = search (quiet_rules, check-Quiet, fail-Quiet)

  -- A call that makes no entry.
  unlogged-Quiet :
      {T : List Call → Type 0} {A : Type 0} (f : L → A × L) → Quiet I T (ffi_entered (λ a. []) f)
  unlogged-Quiet f = record { quiet = λ w i. i }

  buf_retry-Quiet :
      {A : Type 0} (fn : ℕ → L → (Reply × A) × L) (n : ℕ) (buf : Bytes)
      → Quiet I I (buf_retry lib (λ a. []) fn n buf)
  unfolding buf_retry
  buf_retry-Quiet fn n buf = search (quiet_rules, unlogged-Quiet) depth 12

  buf_attempt-Quiet :
      {A : Type 0} (fn : ℕ → L → (Reply × A) × L) → Quiet I I (buf_attempt lib (λ a. []) fn)
  unfolding buf_attempt
  buf_attempt-Quiet fn = search (quiet_rules, unlogged-Quiet, buf_retry-Quiet) depth 12

  pub buf_call-Quiet :
      {A : Type 0} (fn : ℕ → L → (Reply × A) × L) (what : Bytes)
      → Quiet I I (buf_call lib (λ a. []) fn what)
  unfolding buf_call
  buf_call-Quiet fn what = search (quiet_rules, buf_attempt-Quiet, settle-Quiet) depth 12

  pub save-Quiet : (p : Pipeline) → Quiet I I (save lib p)
  unfolding save
  save-Quiet p = search (quiet_rules, buf_call-Quiet)

  pub rekey-Quiet : (p : Pipeline) (perm wrap : Bytes) → Quiet I I (rekey lib p perm wrap)
  unfolding rekey
  rekey-Quiet p perm wrap = search (quiet_rules, buf_call-Quiet)

  pub inspect-Quiet : (blob : Bytes) → Quiet I I (inspect lib blob)
  unfolding inspect
  inspect-Quiet blob = search (quiet_rules, buf_call-Quiet)

  pub lookup-Quiet : (name : Bytes) → Quiet I I (lookup lib name)
  unfolding lookup
  lookup-Quiet name = search (quiet_rules, buf_call-Quiet)

  pub pool_stats_len-Quiet : {T : List Call → Type 0} → Quiet I T (pool_stats_len lib)
  unfolding pool_stats_len
  pool_stats_len-Quiet = search quiet_rules

  pub pool_stats-Quiet : (dst : List ℤ) → Quiet I I (pool_stats lib dst)
  unfolding pool_stats
  pool_stats-Quiet dst = search (quiet_rules, check-Quiet) depth 12

  pub write_heap_profile-Quiet : (path : Bytes) → Quiet I I (write_heap_profile lib path)
  unfolding write_heap_profile
  write_heap_profile-Quiet path = search (quiet_rules, check-Quiet)

  pub drbg_auto_tier-Quiet : Quiet I I (drbg_auto_tier lib)
  unfolding drbg_auto_tier text_call
  drbg_auto_tier-Quiet = search (quiet_rules, check-Quiet) depth 12
