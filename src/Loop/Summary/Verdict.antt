-- ===== src/Loop/Summary/Verdict.antt =====
-- `final_summary` of loop/summary.cpp: the totals, the worker errors and the verdict. Loop/Summary/Final
-- puts them together with the figures that go through `double`.
pub mod Errors
use itb_cpp.Base.{
  Bool, true, false, ℕ, zero, suc, ◌+◌, ◌-◌, ◌*◌, ◌/◌, ◌≤◌, ◌<◌, ◌≡◌, ◌↔◌, ◌⊎◌, inl, inr, refl,
  arith, List, [], ◌∷◌, ◌++◌, Option, some, none, Bytes, codes, length, ltb, ◌==◌, if◌then◌else◌,
  All, append_assoc, ap, subst, Bool-cases, length-append,
}
use itb_cpp.Base.Int.{ℤ, pos}
use itb_cpp.Base.Decimal.{decimal}
use itb_cpp.Loop.State.{Worker, log_line}
use itb_cpp.Loop.Summary.Json.{
  json_string, read_string, read_string-json_string, json_string-opens, length-json_string,
}

pub record Totals : Type 0 where
  pub total_iters : ℕ
  pub total_enc : ℕ
  pub total_dec : ℕ
  pub nanos_enc : ℕ
  pub nanos_dec : ℕ
  pub errors : ℕ

abbrev nothing : Totals
nothing = record {
  total_iters = 0;
  total_enc = 0;
  total_dec = 0;
  nanos_enc = 0;
  nanos_dec = 0;
  errors = 0;
}

-- One round of the loop over the workers.
abbrev add_worker : Totals → Worker → Totals
add_worker t w = record {
  total_iters = t.total_iters + w.iters;
  total_enc = t.total_enc + w.bytes_enc;
  total_dec = t.total_dec + w.bytes_dec;
  nanos_enc = t.nanos_enc + w.nanos_enc;
  nanos_dec = t.nanos_dec + w.nanos_dec;
  errors = if w.failed then t.errors + 1 else t.errors;
}

unfoldable pub totals_from : Totals → List Worker → Totals
totals_from t [] = t
totals_from t (w ∷ ws) = totals_from (add_worker t w) ws

unfoldable pub totals : List Worker → Totals
unfolding totals_from
totals ws = totals_from nothing ws

-- The wall time of one direction over the number of workers.
unfoldable pub average : ℕ → ℕ → ℕ
average nanos workers = if ltb 0 nanos then nanos / workers else 0

abbrev pub pass : List Worker → Bool
pass ws = (totals ws).errors == 0

-- The process's exit status.
unfoldable pub verdict : List Worker → ℕ
verdict ws = if pass ws then 0 else 1

-- The last line of the report.
unfoldable pub verdict_line : List Worker → Bytes
verdict_line ws =
    if pass ws
    then codes "  verdict: PASS"
    else codes "  verdict: FAIL (errors=" ++ decimal (totals ws).errors ++ codes ")"

unfoldable pub verdict_key : List Worker → Bytes
verdict_key ws =
    codes ",\"verdict\":\"" ++ (if pass ws then codes "PASS" else codes "FAIL") ++ codes "\""

-- The line of each failed worker.
unfoldable pub error_lines : List Worker → List Bytes
error_lines [] = []
error_lines (w ∷ ws) =
    let rest = error_lines ws in if w.failed then (codes "  ERROR: " ++ w.error) ∷ rest else rest

-- The iteration counts, and the same as a JSON array: the rounds behind the first put a separator
-- first.
unfoldable pub counts_from : Bytes → Bool → List Worker → Bytes
counts_from separator later [] = []
counts_from separator later (w ∷ ws) =
    (if later then separator else []) ++ decimal w.iters ++ counts_from separator true ws

unfoldable pub iterations_line : List Worker → Bytes
unfolding counts_from totals
iterations_line ws =
    codes "  iterations: "
    ++ counts_from (codes " + ") false ws
    ++ codes " = "
    ++ decimal (totals ws).total_iters
    ++ codes " total"

-- `"worker_errors":[…]` behind its bracket; the flag is `n > 0`.
unfoldable pub errors_from : Bool → List Worker → Bytes
errors_from later [] = codes "]"
errors_from later (w ∷ ws) =
    let skipped = errors_from later ws in
    let shown = (if later then codes "," else []) ++ (json_string w.error ++ errors_from true ws) in
    if w.failed then shown else skipped

unfoldable pub worker_errors : List Worker → Bytes
unfolding errors_from
worker_errors ws = b'[' ∷ errors_from false ws

-- The errors of the failed workers, in their order.
unfoldable pub failures : List Worker → List Bytes
failures [] = []
failures (w ∷ ws) = if w.failed then w.error ∷ failures ws else failures ws

totals_from-errors :
    (t : Totals) (ws : List Worker) → (totals_from t ws).errors ≡ t.errors + length (failures ws)
unfolding totals_from failures
totals_from-errors t [] = omega arith
totals_from-errors t (w ∷ ws) = ground (arith, totals_from-errors (add_worker t w) ws)

failures-none : (ws : List Worker) → length (failures ws) ≡ 0 → All (λ w. w.failed ≡ false) ws
unfolding failures
failures-none [] h = tt
failures-none (w ∷ ws) h = elim (Bool-cases w.failed) [
  | inl bad ↦ absurd (ground (arith, bad, h))
  | inr good ↦ (good, failures-none ws (ground (arith, good, h)))
]

none-failures : (ws : List Worker) → All (λ w. w.failed ≡ false) ws → length (failures ws) ≡ 0
unfolding failures
none-failures [] h = refl
none-failures (w ∷ ws) h = rw (h.0, none-failures ws h.1) refl

-- The summary counts the failed workers, and the exit status is 0 exactly if no worker has failed.
pub verdict_lem :
    (ws : List Worker)
    → ((totals ws).errors ≡ length (failures ws))
      × ((verdict ws ≡ 0) ↔ All (λ w. w.failed ≡ false) ws)
unfolding verdict totals
verdict_lem ws = (
  counted,
  (
    λ e. failures-none ws (ground (arith, counted, e)),
    λ h. ground (arith, counted, none-failures ws h),
  ),
)
  where
    counted : (totals ws).errors ≡ length (failures ws)
    counted = omega (arith, totals_from-errors nothing ws)
