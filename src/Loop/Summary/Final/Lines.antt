-- ===== src/Loop/Summary/Final/Lines.antt =====
-- `final_summary` of loop/summary.cpp: the rendering as log lines, and the choice between the two.
use itb_cpp.Base.{
  inl, inr, ℕ, zero, suc, ◌+◌, ◌*◌, ◌/◌, List, [], ◌∷◌, ◌++◌, Bytes, codes, if◌then◌else◌,
}
use itb_cpp.Base.Int.{ℤ, pos, ◌+ℤ◌}
use itb_cpp.Base.Decimal.{decimal, decimal_int}
use itb_cpp.Binding.World.{M, pure, ◌>>=◌, Library}
use itb_cpp.Binding.Runtime.{set_gomaxprocs, drbg_auto_tier}
use itb_cpp.Loop.Real.{Real}
use itb_cpp.Loop.Size.{human_duration}
use itb_cpp.Loop.Size.Rates.{human_bytes, human_bytes_signed, human_rate}
use itb_cpp.Loop.Worker.{caught}
use itb_cpp.Loop.Summary.Pools.{effective_gogc}
use itb_cpp.Loop.Summary.Verdict.{totals, verdict, verdict_line, error_lines, iterations_line}
use itb_cpp.Loop.Summary.Final.{
  Ended, Tier, used_tiers, as_int64, rss_delta, rss_growth, percent, avg_enc, avg_dec, concurrency,
  final_json,
}

-- `log_line`: the prefix, the text and the newline in one write.
abbrev pub logged : Bytes → Bytes
logged text = codes "[loop] " ++ text ++ codes "\n"

unfoldable pub lines_text : List Bytes → Bytes
lines_text [] = []
lines_text (line ∷ lines) = logged line ++ lines_text lines

module _ {F : Type 0} (real : Real F) where
  unfoldable pub tier_lines : List Tier → List Bytes
  tier_lines [] = []
  tier_lines (t ∷ ts) =
      (codes "  hash pool tier "
        ++ decimal t.tier
        ++ codes " (starter "
        ++ decimal_int t.starter
        ++ codes "): get "
        ++ decimal_int t.get
        ++ codes ", miss "
        ++ decimal_int (t.fresh +ℤ t.regrow)
        ++ codes " (new "
        ++ decimal_int t.fresh
        ++ codes " + regrow "
        ++ decimal_int t.regrow
        ++ codes "), miss "
        ++ percent real (t.fresh +ℤ t.regrow) t.get
        ++ codes "%, "
        ++ human_bytes real t.new_bytes
        ++ codes " allocated")
      ∷ tier_lines ts

  module _ (e : Ended) where
    abbrev size : ℕ → Bytes
    size n = human_bytes real (as_int64 n)

    abbrev pool_line : Bytes → ℤ → ℤ → ℤ → ℤ → Bytes
    pool_line front get regrow fresh regrow_bytes =
        front
        ++ codes ": get "
        ++ decimal_int get
        ++ codes ", regrow "
        ++ decimal_int regrow
        ++ codes " (of which fresh "
        ++ decimal_int fresh
        ++ codes "), miss "
        ++ percent real regrow get
        ++ codes "%, "
        ++ human_bytes real regrow_bytes
        ++ codes " regrown"

    abbrev rates_line : Bytes
    rates_line =
        let t = totals e.workers in
        codes "  throughput: encrypt "
        ++ human_rate real t.total_enc (avg_enc real e)
        ++ codes ", decrypt "
        ++ human_rate real t.total_dec (avg_dec real e)
        ++ codes ", combined "
        ++ human_rate real (t.total_enc + t.total_dec) e.elapsed_ns

    abbrev bytes_line : Bytes
    bytes_line =
        codes "  bytes: "
        ++ human_bytes real (pos (totals e.workers).total_enc)
        ++ codes " encrypted, "
        ++ human_bytes real (pos (totals e.workers).total_dec)
        ++ codes " decrypted"

    abbrev integrity_line : Bytes
    integrity_line =
        let n = decimal (totals e.workers).total_iters in
        codes "  data integrity: " ++ n ++ codes "/" ++ n ++ codes " PASS"

    abbrev workers_line : Bytes
    workers_line =
        codes "  concurrency: "
        ++ concurrency
        ++ codes ", workers "
        ++ decimal e.run.cfg.workers
        ++ codes " (requested "
        ++ decimal_int e.run.cfg.workers_requested
        ++ codes ")"

    abbrev rss_line : Bytes
    rss_line =
        codes "  rss: warmup "
        ++ size e.rss_warmup
        ++ codes ", peak "
        ++ size e.rss_peak
        ++ codes ", final "
        ++ size e.rss_final
        ++ codes " (delta "
        ++ human_bytes_signed real (rss_delta e)
        ++ codes ", "
        ++ real.printed 1 (rss_growth real (rss_delta e) e.rss_warmup)
        ++ codes "% growth)"

    abbrev if_any : Bytes → ℕ → List Bytes
    if_any front zero = []
    if_any front (suc n) = (front ++ decimal (suc n)) ∷ []

    -- The texts of the lines, in the order of the source.
    unfoldable pub final_lines : List Bytes
    final_lines =
        codes "=== FINAL ==="
        ∷ (codes "  duration: " ++ human_duration ((e.elapsed_ns + 500000) / 1000000 * 1000000))
        ∷ iterations_line e.workers
        ∷ rates_line
        ∷ bytes_line
        ∷ integrity_line
        ∷ workers_line
        ∷ rss_line
        ∷ (tier_lines (used_tiers e.pools)
            ++ pool_line (codes "  buf pool") e.pools.buf_get e.pools.buf_regrow e.pools.buf_new
                e.pools.buf_regrow_bytes
              ∷ pool_line (codes "  parallax chunk pool") e.pools.chunk_get e.pools.chunk_regrow
                  e.pools.chunk_new e.pools.chunk_regrow_bytes
              ∷ (if_any (codes "  rekeys: ") e.run.rekeys
                  ++ (if_any (codes "  blob cycles: ") e.run.blob_cycles
                      ++ (error_lines e.workers ++ verdict_line e.workers ∷ []))))

  -- What is written to stdout, and the exit status. The name of the tier is left empty if the library
  -- refuses it.
  module _ {L : Type 0} (lib : Library L) where
    unfoldable pub final_summary : Ended → M L (Bytes × ℕ)
    unfolding lines_text
    final_summary e = set_gomaxprocs lib (pos 0) >>= λ gomaxprocs.
        if e.run.cfg.json_output
        then (caught [] (drbg_auto_tier lib) >>= λ r. effective_gogc lib e.run.cfg.gogc >>= λ gogc.
            pure (
              final_json real e (record {
                gomaxprocs = gomaxprocs;
                auto_tier = elim r [ inl failure ↦ [] | inr name ↦ name ];
                gogc = gogc;
              }),
              verdict e.workers,
            ))
        else pure (lines_text (final_lines e), verdict e.workers)
