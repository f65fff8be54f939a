-- ===== src/Loop/Summary/Verdict/Errors.antt =====
-- The array of worker errors in the JSON summary, and a reader of such arrays.
use itb_cpp.Base.{
  Bool, true, false, ℕ, zero, suc, ◌≤◌, ◌<◌, ◌≡◌, inl, inr, refl, arith, List, [], ◌∷◌, ◌++◌,
  Option, some, none, Bytes, codes, length, ◌==◌, if◌then◌else◌, append_assoc, ap, subst,
  Bool-cases, length-append,
}
use itb_cpp.Loop.State.{Worker}
use itb_cpp.Loop.Summary.Json.{
  json_string, read_string, read_string-json_string, json_string-opens, length-json_string,
}
use itb_cpp.Loop.Summary.Verdict.{failures, errors_from, worker_errors}

-- A reader of an array of strings, of at most so many.
read_items : ℕ → Bytes → Option (List Bytes × Bytes)
read_items zero text = none
read_items (suc fuel) text = elim (read_string text) [
  | none ↦ none
  | some (item, []) ↦ none
  | some (item, c ∷ rest) ↦
      if c == b']' then some (item ∷ [], rest) else elim (read_items fuel rest) [
        | none ↦ none
        | some (items, behind) ↦ some (item ∷ items, behind)
      ]
]

pub read_array : Bytes → Option (List Bytes × Bytes)
unfolding read_items
read_array (b ∷ c ∷ text) =
    if c == b']' then some ([], text) else read_items (suc (length text)) (c ∷ text)
read_array _ = none

module _ (w : Worker) (ws : List Worker) where
  -- One failed worker, and one that did not fail.
  pub on_failed :
      (later : Bool)
      → w.failed ≡ true
      → (failures (w ∷ ws) ≡ w.error ∷ failures ws)
        × (errors_from later (w ∷ ws)
            ≡ (if later then codes "," else []) ++ (json_string w.error ++ errors_from true ws))
  unfolding failures errors_from
  on_failed later bad = (rw bad refl, rw bad refl)

  pub on_fine :
      (later : Bool)
      → w.failed ≡ false
      → (failures (w ∷ ws) ≡ failures ws) × (errors_from later (w ∷ ws) ≡ errors_from later ws)
  unfolding failures errors_from
  on_fine later good = (rw good refl, rw good refl)

failures-le :
    (later : Bool) (ws : List Worker) → length (failures ws) ≤ length (errors_from later ws)
unfolding failures
failures-le later [] = omega arith
failures-le later (w ∷ ws) = elim (Bool-cases w.failed) [
  | inl bad ↦
      rw ((on_failed w ws later bad).0, (on_failed w ws later bad).1)
        (longer (if later then codes "," else []) (failures-le true ws))
  | inr good ↦ rw ((on_fine w ws later good).0, (on_fine w ws later good).1) (failures-le later ws)
]
  where
    longer :
        (separator : Bytes)
        → length (failures ws) ≤ length (errors_from true ws)
        → suc (length (failures ws))
          ≤ length (separator ++ (json_string w.error ++ errors_from true ws))
    longer separator h = omega (
      arith,
      h,
      length-append separator (json_string w.error ++ errors_from true ws),
      length-append (json_string w.error) (errors_from true ws),
      length-json_string w.error,
    )

-- The last item, and one with a comma behind it.
read_items-last :
    (e rest : Bytes) (fuel : ℕ)
    → read_items (suc fuel) (json_string e ++ b']' ∷ rest) ≡ some (e ∷ [], rest)
read_items-last e rest fuel =
    unfold read_items in rw (read_items, read_string-json_string e (b']' ∷ rest)) refl

read_items-more :
    (e text rest : Bytes) (items : List Bytes) (fuel : ℕ)
    → read_items fuel text ≡ some (items, rest)
    → read_items (suc fuel) (json_string e ++ b',' ∷ text) ≡ some (e ∷ items, rest)
unfolding read_items
read_items-more e text rest items fuel h =
    rw (read_items, read_string-json_string e (b',' ∷ text), h) refl

-- An array that starts with an item.
read_array-items :
    (e text : Bytes) (items : List Bytes) (rest : Bytes)
    → ((fuel : ℕ)
        → length text < fuel
        → read_items fuel (json_string e ++ text) ≡ some (items, rest))
    → read_array (b'[' ∷ (json_string e ++ text)) ≡ some (items, rest)
read_array-items e text items rest h =
    let (t, opens) = json_string-opens e in rw opens (quoted t (subst IsReadBy opens h))
  where
    IsReadBy : Bytes → Type 0
    IsReadBy u = (fuel : ℕ) → length text < fuel → read_items fuel (u ++ text) ≡ some (items, rest)

    quoted :
        (t : Bytes)
        → IsReadBy (b'"' ∷ t)
        → read_array (b'[' ∷ (b'"' ∷ (t ++ text))) ≡ some (items, rest)
    quoted t h =
        unfold read_array in h (suc (length (t ++ text))) (omega (arith, length-append t text))

read_items-errors :
    (ws : List Worker) (e rest : Bytes) (fuel : ℕ)
    → length (failures ws) < fuel
    → read_items fuel (json_string e ++ (errors_from true ws ++ rest))
      ≡ some (e ∷ failures ws, rest)
read_items-errors ws e rest zero h = absurd (omega arith)
read_items-errors [] e rest (suc fuel) h =
    unfold failures errors_from in read_items-last e rest fuel
read_items-errors (w ∷ ws) e rest (suc fuel) h = elim (Bool-cases w.failed) [
  | inl bad ↦
      let (ef, es) = on_failed w ws true bad in
      rw (ef, es, append_assoc (json_string w.error) (errors_from true ws) rest)
        (read_items-more e (json_string w.error ++ (errors_from true ws ++ rest)) rest
          (w.error ∷ failures ws) fuel
          (read_items-errors ws w.error rest fuel (omega (arith, ap length ef, h))))
  | inr good ↦
      let (ef, es) = on_fine w ws true good in
      rw (ef, es) (read_items-errors ws e rest (suc fuel) (omega (arith, ap length ef, h)))
]

-- The array of worker errors that the summary prints reads back as the errors of the failed workers,
-- in the workers' order, whatever the texts hold and whatever stands behind the array.
pub read_array-worker_errors :
    (ws : List Worker) (rest : Bytes)
    → read_array (worker_errors ws ++ rest) ≡ some (failures ws, rest)
unfolding worker_errors
read_array-worker_errors [] rest = unfold read_array errors_from failures in refl
read_array-worker_errors (w ∷ ws) rest = elim (Bool-cases w.failed) [
  | inl bad ↦
      let (ef, es) = on_failed w ws false bad in
      rw (ef, es, append_assoc (json_string w.error) (errors_from true ws) rest)
        (read_array-items w.error (errors_from true ws ++ rest) (w.error ∷ failures ws) rest
          (λ fuel more.
            read_items-errors ws w.error rest fuel
              (omega (arith, more, failures-le true ws, length-append (errors_from true ws) rest))))
  | inr good ↦
      let (ef, es) = on_fine w ws false good in rw (ef, es) (read_array-worker_errors ws rest)
]
