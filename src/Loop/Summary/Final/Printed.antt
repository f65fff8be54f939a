-- ===== src/Loop/Summary/Final/Printed.antt =====
-- The JSON object of the summary, read back.
use itb_cpp.Base.{
  arith, All, suc, ℕ, ◌≡◌, refl, [], ◌∷◌, some, true, false, if◌then◌else◌, Bool, Bytes, codes,
}
use itb_cpp.Base.Int.{ℤ, pos, negsuc}
use itb_cpp.Base.Decimal.{decimal, decimal_int, IsDigit, decimal-IsDigit}
use itb_cpp.Loop.Names.{Shape, stream, PayloadMode, fixed, shape_name, payload_mode_name}
use itb_cpp.Loop.Real.{Real}
use itb_cpp.Loop.Launch.{on_off}
use itb_cpp.Loop.Summary.Json.{is_plain}
use itb_cpp.Loop.Summary.Verdict.{totals, pass}
use itb_cpp.Loop.Summary.Document.{number, read_json}
use itb_cpp.Loop.Summary.Document.Digits.{decimal-IsNumeral, decimal_int-IsNumeral, ends_number}
use itb_cpp.Loop.Summary.Document.Rows.{
  Shows, Prints, done, ◌▸◌, number-Shows, text-Shows, quotes-Shows, Prints-append, object-Shows,
  read_json-Shows,
}
use itb_cpp.Loop.Summary.Final.{
  Ended, Answers, rate, concurrency, rss_delta, used_tiers, measured_rows, setup_rows, runtime_rows,
  pool_group, final_json,
}
use itb_cpp.Loop.Summary.Final.Doubles.{Laws, seconds-IsNumeral, rate-IsNumeral, growth-IsNumeral}
use itb_cpp.Loop.Summary.Final.Arrays.{
  iterations_text-Shows, worker_errors-Shows, pool-Shows, tiers-Shows,
}
use itb_cpp.Loop.Summary.Final.Object.{
  measured_fields, setup_fields, runtime_fields, pool_members, summary_document,
}

shape_name-is_plain : (s : Shape) → is_plain (shape_name s) ≡ true
unfolding is_plain shape_name
shape_name-is_plain stream = refl
shape_name-is_plain _ = refl

payload_mode_name-is_plain : (m : PayloadMode) → is_plain (payload_mode_name m) ≡ true
unfolding is_plain payload_mode_name
payload_mode_name-is_plain fixed = refl
payload_mode_name-is_plain _ = refl

on_off-is_plain : (b : Bool) → is_plain (on_off b) ≡ true
unfolding is_plain
on_off-is_plain true = refl
on_off-is_plain false = refl

verdict-is_plain : (b : Bool) → is_plain (if b then codes "PASS" else codes "FAIL") ≡ true
unfolding is_plain
verdict-is_plain true = refl
verdict-is_plain false = refl

digits-is_plain : (s : Bytes) → All IsDigit s → is_plain s ≡ true
unfolding is_plain
digits-is_plain [] h = refl
digits-is_plain (c ∷ s) h = ground (arith, h.0, digits-is_plain s h.1)

decimal_int-is_plain : (z : ℤ) → is_plain (decimal_int z) ≡ true
unfolding decimal_int is_plain
decimal_int-is_plain (pos n) = digits-is_plain (decimal n) (decimal-IsDigit n)
decimal_int-is_plain (negsuc n) = digits-is_plain (decimal (suc n)) (decimal-IsDigit (suc n))

int-Shows : (z : ℤ) → Shows (decimal_int z) (number (decimal_int z))
int-Shows z = number-Shows (decimal_int-IsNumeral z)

nat-Shows : (n : ℕ) → Shows (decimal n) (number (decimal n))
nat-Shows n = number-Shows (decimal-IsNumeral n)

module _ {F : Type 0} (real : Real F) (laws : Laws real) (e : Ended) where
  rate-Shows : (bytes ns : ℕ) → Shows (rate real bytes ns) (number (rate real bytes ns))
  rate-Shows bytes ns = number-Shows (rate-IsNumeral real laws bytes ns)

  measured-Prints : Prints (measured_rows real e) (measured_fields real e)
  unfolding is_plain
  measured-Prints =
      (refl, number-Shows (seconds-IsNumeral real laws e.elapsed_ns))
      ▸ (refl, nat-Shows (totals e.workers).total_iters)
      ▸ (refl, iterations_text-Shows e.workers)
      ▸ (refl, nat-Shows (totals e.workers).total_enc)
      ▸ (refl, nat-Shows (totals e.workers).total_dec)
      ▸ (refl, rate-Shows _ _)
      ▸ (refl, rate-Shows _ _)
      ▸ (refl, rate-Shows _ _)
      ▸ (refl, nat-Shows e.run.rekeys)
      ▸ (refl, nat-Shows e.run.blob_cycles)
      ▸ (refl, worker_errors-Shows e.workers)
      ▸ (refl, quotes-Shows _ (verdict-is_plain (pass e.workers)))
      ▸ done

  setup-Prints : (tier : Bytes) → Prints (setup_rows real e tier) (setup_fields real e tier)
  unfolding is_plain
  setup-Prints tier =
      (refl, quotes-Shows _ (shape_name-is_plain e.run.cfg.shape))
      ▸ (refl, text-Shows _)
      ▸ (refl, text-Shows _)
      ▸ (refl, text-Shows e.run.cfg.hash)
      ▸ (refl, text-Shows e.run.cfg.mac)
      ▸ (refl, nat-Shows e.run.cfg.payload)
      ▸ (refl, quotes-Shows _ (payload_mode_name-is_plain e.run.cfg.payload_mode))
      ▸ (refl, nat-Shows e.run.cfg.seed)
      ▸ (refl, int-Shows e.run.cfg.key_bits)
      ▸ (refl, int-Shows e.run.cfg.nonce_bits)
      ▸ (refl, int-Shows e.run.cfg.blob_mode)
      ▸ (refl, text-Shows e.run.cfg.drbg)
      ▸ (refl, text-Shows tier)
      ▸ (refl, text-Shows e.run.cfg.interlock)
      ▸ (refl, nat-Shows e.run.cfg.chunk_size)
      ▸ (refl, int-Shows e.run.cfg.barrier_fill)
      ▸ (refl, quotes-Shows _ (on_off-is_plain e.run.cfg.parallax))
      ▸ (refl, quotes-Shows _ (on_off-is_plain e.run.cfg.wrapper))
      ▸ done

  runtime-Prints : (a : Answers) → Prints (runtime_rows real e a) (runtime_fields real e a)
  unfolding is_plain
  runtime-Prints a =
      (refl, int-Shows e.run.cfg.workers_requested)
      ▸ (refl, nat-Shows e.run.cfg.workers)
      ▸ (refl, quotes-Shows concurrency refl)
      ▸ (refl, quotes-Shows _ (decimal_int-is_plain a.gogc))
      ▸ (refl, nat-Shows e.run.cfg.memlimit)
      ▸ (refl, int-Shows a.gomaxprocs)
      ▸ (refl, text-Shows _)
      ▸ (refl, text-Shows _)
      ▸ (refl, nat-Shows e.rss_warmup)
      ▸ (refl, nat-Shows e.rss_peak)
      ▸ (refl, nat-Shows e.rss_final)
      ▸ (refl, number-Shows (growth-IsNumeral real laws (rss_delta e) e.rss_warmup))
      ▸ done

  pools-Prints : Prints (pool_group real e) (pool_members real e)
  unfolding is_plain
  pools-Prints =
      (refl, tiers-Shows real laws (used_tiers e.pools))
      ▸ (refl, pool-Shows real laws _ _ _ _)
      ▸ (refl, pool-Shows real laws _ _ _ _)
      ▸ done

  -- Whatever the run has measured, and whatever bytes the error texts, the names and the policy
  -- variables hold, the summary that is printed as JSON is one JSON object, which reads back as the
  -- forty-five keys in their order with the values of the run, and the newline behind it is all that is
  -- left; of the machine's `double` it is assumed that magnitudes are bounded as `Laws` says, so
  -- that no infinity is printed.
  pub read_json-final_json :
      (a : Answers) → read_json (final_json real e a) ≡ some (summary_document real e a, codes "\n")
  unfolding final_json summary_document ends_number
  read_json-final_json a =
      read_json-Shows _ (codes "\n") _
        (object-Shows (
          Prints-append measured-Prints (
            Prints-append (setup-Prints a.auto_tier)
              (Prints-append (runtime-Prints a) pools-Prints))))
        refl
