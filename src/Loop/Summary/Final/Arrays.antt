-- ===== src/Loop/Summary/Final/Arrays.antt =====
-- The arrays and the nested objects of the summary.
use itb_cpp.Base.{
  Bool, true, false, ◌≡◌, refl, ap, ◌∙◌, List, [], ◌∷◌, ◌++◌, append_assoc, Bytes, codes,
  if◌then◌else◌, Bool-cases, inl, inr,
}
use itb_cpp.Base.Int.{ℤ, ◌+ℤ◌}
use itb_cpp.Base.Decimal.{decimal, decimal_int}
use itb_cpp.Loop.Real.{Real}
use itb_cpp.Loop.State.{Worker}
use itb_cpp.Loop.Summary.Json.{json_string, is_plain}
use itb_cpp.Loop.Summary.Verdict.{failures, errors_from, worker_errors, counts_from}
use itb_cpp.Loop.Summary.Verdict.Errors.{on_failed, on_fine}
use itb_cpp.Loop.Summary.Document.{
  Json, number, text, array, object, Items, nil, item, comma, print, print_items,
}
use itb_cpp.Loop.Summary.Document.Digits.{decimal-IsNumeral, decimal_int-IsNumeral}
use itb_cpp.Loop.Summary.Document.Printed.{AreNumerals, ItemsAre}
use itb_cpp.Loop.Summary.Document.Rows.{
  object_text, members_of, Shows, done, ◌▸◌, number-Shows, object-Shows,
}
use itb_cpp.Loop.Summary.Final.{Tier, percent, tier_rows, tiers_text, pool_rows, iterations_text}
use itb_cpp.Loop.Summary.Final.Doubles.{Laws, percent-IsNumeral}

unfoldable pub counts : List Worker → Items
counts [] = nil
counts (w ∷ ws) = item (number (decimal w.iters)) (counts ws)

unfoldable pub texts : List Bytes → Items
texts [] = nil
texts (s ∷ ss) = item (text s) (texts ss)

counts-ItemsAre : (ws : List Worker) → ItemsAre (counts ws)
unfolding counts ItemsAre AreNumerals
counts-ItemsAre [] = tt
counts-ItemsAre (w ∷ ws) = (decimal-IsNumeral w.iters, counts-ItemsAre ws)

texts-ItemsAre : (ss : List Bytes) → ItemsAre (texts ss)
unfolding texts ItemsAre AreNumerals
texts-ItemsAre [] = tt
texts-ItemsAre (s ∷ ss) = (tt, texts-ItemsAre ss)

-- An item of an array behind its separator, which is a comma if an item stands before.
item-text :
    (later : Bool) (t more rest printed : Bytes)
    → t ++ (more ++ rest) ≡ printed
    → ((if later then codes "," else []) ++ (t ++ more)) ++ rest ≡ comma later printed
item-text true t more rest printed e = ap (◌∷◌ b',') (append_assoc t more rest ∙ e)
item-text false t more rest printed e = append_assoc t more rest ∙ e

counts_from-print :
    (later : Bool) (ws : List Worker) (rest : Bytes)
    → counts_from (codes ",") later ws ++ b']' ∷ rest ≡ print_items (counts ws) later rest
unfolding counts_from counts print_items print
counts_from-print later [] rest = refl
counts_from-print later (w ∷ ws) rest =
    ap (λ s. s ++ b']' ∷ rest)
      (append_assoc (if later then codes "," else []) (decimal w.iters)
        (counts_from (codes ",") true ws))
    ∙ item-text later (decimal w.iters) (counts_from (codes ",") true ws) (b']' ∷ rest) _
        (ap (λ s. decimal w.iters ++ s) (counts_from-print true ws rest))

pub iterations_text-Shows : (ws : List Worker) → Shows (iterations_text ws) (array (counts ws))
unfolding iterations_text AreNumerals print
iterations_text-Shows ws = (
  counts-ItemsAre ws,
  λ rest. ap (◌∷◌ b'[') (
      append_assoc (counts_from (codes ",") false ws) (codes "]") rest
      ∙ counts_from-print false ws rest),
)

errors_from-print :
    (later : Bool) (ws : List Worker) (rest : Bytes)
    → errors_from later ws ++ rest ≡ print_items (texts (failures ws)) later rest
unfolding texts print_items print
errors_from-print later [] rest = unfold errors_from failures in refl
errors_from-print later (w ∷ ws) rest = elim (Bool-cases w.failed) [
  | inl bad ↦
      let (ef, es) = on_failed w ws later bad in
      rw (ef, es)
        (item-text later (json_string w.error) (errors_from true ws) rest _
          (ap (λ s. json_string w.error ++ s) (errors_from-print true ws rest)))
  | inr good ↦
      let (ef, es) = on_fine w ws later good in rw (ef, es) (errors_from-print later ws rest)
]

pub worker_errors-Shows :
    (ws : List Worker) → Shows (worker_errors ws) (array (texts (failures ws)))
unfolding worker_errors AreNumerals print
worker_errors-Shows ws =
    (texts-ItemsAre (failures ws), λ rest. ap (◌∷◌ b'[') (errors_from-print false ws rest))

module _ {F : Type 0} (real : Real F) where
  abbrev pub pool_fields : ℤ → ℤ → ℤ → ℤ → List (Bytes × Json)
  pool_fields get fresh regrow regrow_bytes =
      (codes "get", number (decimal_int get))
      ∷ (codes "new", number (decimal_int fresh))
      ∷ (codes "regrow", number (decimal_int regrow))
      ∷ (codes "regrow_bytes", number (decimal_int regrow_bytes))
      ∷ (codes "miss_percent", number (percent real regrow get))
      ∷ []

  abbrev tier_fields : Tier → List (Bytes × Json)
  tier_fields t =
      (codes "tier", number (decimal t.tier))
      ∷ (codes "starter", number (decimal_int t.starter))
      ∷ (codes "get", number (decimal_int t.get))
      ∷ (codes "new", number (decimal_int t.fresh))
      ∷ (codes "regrow", number (decimal_int t.regrow))
      ∷ (codes "new_bytes", number (decimal_int t.new_bytes))
      ∷ (codes "miss_percent", number (percent real (t.fresh +ℤ t.regrow) t.get))
      ∷ []

  unfoldable pub tiers : List Tier → Items
  tiers [] = nil
  tiers (t ∷ ts) = item (object (members_of (tier_fields t))) (tiers ts)

  module _ (laws : Laws real) where
    abbrev int : (z : ℤ) → Shows (decimal_int z) (number (decimal_int z))
    int z = number-Shows (decimal_int-IsNumeral z)

    abbrev pub miss : (m get : ℤ) → Shows (percent real m get) (number (percent real m get))
    miss m get = number-Shows (percent-IsNumeral real laws m get)

    pub pool-Shows :
        (get fresh regrow regrow_bytes : ℤ)
        → Shows
            (object_text (pool_rows real get fresh regrow regrow_bytes))
            (object (members_of (pool_fields get fresh regrow regrow_bytes)))
    unfolding is_plain
    pool-Shows get fresh regrow regrow_bytes = object-Shows (
        (refl, int get)
        ▸ (refl, int fresh)
        ▸ (refl, int regrow)
        ▸ (refl, int regrow_bytes)
        ▸ (refl, miss regrow get)
        ▸ done)

    tier-Shows :
        (t : Tier) → Shows (object_text (tier_rows real t)) (object (members_of (tier_fields t)))
    unfolding is_plain
    tier-Shows t = object-Shows (
        (refl, number-Shows (decimal-IsNumeral t.tier))
        ▸ (refl, int t.starter)
        ▸ (refl, int t.get)
        ▸ (refl, int t.fresh)
        ▸ (refl, int t.regrow)
        ▸ (refl, int t.new_bytes)
        ▸ (refl, miss (t.fresh +ℤ t.regrow) t.get)
        ▸ done)

    tiers-ItemsAre : (ts : List Tier) → ItemsAre (tiers ts)
    unfolding tiers ItemsAre
    tiers-ItemsAre [] = tt
    tiers-ItemsAre (t ∷ ts) = ((tier-Shows t).0, tiers-ItemsAre ts)

    tiers_text-print :
        (later : Bool) (ts : List Tier) (rest : Bytes)
        → tiers_text real later ts ++ b']' ∷ rest ≡ print_items (tiers ts) later rest
    unfolding tiers_text tiers print_items
    tiers_text-print later [] rest = refl
    tiers_text-print later (t ∷ ts) rest =
        item-text later (object_text (tier_rows real t)) (tiers_text real true ts) (b']' ∷ rest) _ (
          ap (λ s. object_text (tier_rows real t) ++ s) (tiers_text-print true ts rest)
          ∙ (tier-Shows t).1 _)

    pub tiers-Shows :
        (ts : List Tier) → Shows (b'[' ∷ (tiers_text real false ts ++ codes "]")) (array (tiers ts))
    unfolding AreNumerals print
    tiers-Shows ts = (
      tiers-ItemsAre ts,
      λ rest. ap (◌∷◌ b'[') (
          append_assoc (tiers_text real false ts) (codes "]") rest
          ∙ tiers_text-print false ts rest),
    )
