-- ===== src/Loop/Summary/Final/Object.antt =====
-- The JSON object of the summary as a document.
use itb_cpp.Base.{◌+◌, List, [], ◌∷◌, ◌++◌, if◌then◌else◌, Bytes, codes}
use itb_cpp.Base.Decimal.{decimal, decimal_int}
use itb_cpp.Loop.Names.{shape_name, payload_mode_name}
use itb_cpp.Loop.Real.{Real}
use itb_cpp.Loop.Launch.{on_off, policy_label}
use itb_cpp.Loop.Summary.Verdict.{totals, pass, failures}
use itb_cpp.Loop.Summary.Document.{Json, number, text, array, object}
use itb_cpp.Loop.Summary.Document.Rows.{members_of}
use itb_cpp.Loop.Summary.Final.{
  Ended, Answers, seconds, rate, concurrency, named_if, rss_growth, rss_delta, avg_enc, avg_dec,
  used_tiers,
}
use itb_cpp.Loop.Summary.Final.Arrays.{counts, texts, tiers, pool_fields}

module _ {F : Type 0} (real : Real F) (e : Ended) where
  abbrev pub measured_fields : List (Bytes × Json)
  measured_fields =
      (codes "duration_seconds", number (seconds real e.elapsed_ns))
      ∷ (codes "iterations", number (decimal (totals e.workers).total_iters))
      ∷ (codes "per_worker_iterations", array (counts e.workers))
      ∷ (codes "bytes_encrypted", number (decimal (totals e.workers).total_enc))
      ∷ (codes "bytes_decrypted", number (decimal (totals e.workers).total_dec))
      ∷ (
        codes "encrypt_mb_per_sec",
        number (rate real (totals e.workers).total_enc (avg_enc real e)),
      )
      ∷ (
        codes "decrypt_mb_per_sec",
        number (rate real (totals e.workers).total_dec (avg_dec real e)),
      )
      ∷ (
        codes "combined_mb_per_sec",
        number
            (rate real ((totals e.workers).total_enc + (totals e.workers).total_dec) e.elapsed_ns),
      )
      ∷ (codes "rekeys", number (decimal e.run.rekeys))
      ∷ (codes "blob_cycles", number (decimal e.run.blob_cycles))
      ∷ (codes "worker_errors", array (texts (failures e.workers)))
      ∷ (codes "verdict", text (if pass e.workers then codes "PASS" else codes "FAIL"))
      ∷ []

  abbrev pub setup_fields : Bytes → List (Bytes × Json)
  setup_fields auto_tier =
      (codes "shape", text (shape_name e.run.cfg.shape))
      ∷ (codes "stream_profile", text (named_if e.run.stream_pipe e.run.stream_profile))
      ∷ (codes "message_profile", text (named_if e.run.msg_pipe e.run.msg_profile))
      ∷ (codes "hash", text e.run.cfg.hash)
      ∷ (codes "mac", text e.run.cfg.mac)
      ∷ (codes "payload_bytes", number (decimal e.run.cfg.payload))
      ∷ (codes "payload_mode", text (payload_mode_name e.run.cfg.payload_mode))
      ∷ (codes "seed", number (decimal e.run.cfg.seed))
      ∷ (codes "key_bits", number (decimal_int e.run.cfg.key_bits))
      ∷ (codes "nonce_bits", number (decimal_int e.run.cfg.nonce_bits))
      ∷ (codes "blob_mode", number (decimal_int e.run.cfg.blob_mode))
      ∷ (codes "drbg", text e.run.cfg.drbg)
      ∷ (codes "drbg_auto_tier", text auto_tier)
      ∷ (codes "interlock", text e.run.cfg.interlock)
      ∷ (codes "chunk_size_bytes", number (decimal e.run.cfg.chunk_size))
      ∷ (codes "barrier_fill", number (decimal_int e.run.cfg.barrier_fill))
      ∷ (codes "parallax", text (on_off e.run.cfg.parallax))
      ∷ (codes "wrapper", text (on_off e.run.cfg.wrapper))
      ∷ []

  abbrev pub runtime_fields : Answers → List (Bytes × Json)
  runtime_fields a =
      (codes "goroutines_requested", number (decimal_int e.run.cfg.workers_requested))
      ∷ (codes "goroutines", number (decimal e.run.cfg.workers))
      ∷ (codes "concurrency", text concurrency)
      ∷ (codes "gogc", text (decimal_int a.gogc))
      ∷ (codes "memlimit_bytes", number (decimal e.run.cfg.memlimit))
      ∷ (codes "gomaxprocs", number (decimal_int a.gomaxprocs))
      ∷ (codes "microbatch_tiers", text (policy_label e.microbatch_tiers))
      ∷ (codes "hashpool_starters", text (policy_label e.hashpool_starters))
      ∷ (codes "rss_warmup_bytes", number (decimal e.rss_warmup))
      ∷ (codes "rss_peak_bytes", number (decimal e.rss_peak))
      ∷ (codes "rss_final_bytes", number (decimal e.rss_final))
      ∷ (
        codes "rss_growth_percent",
        number (real.printed 2 (rss_growth real (rss_delta e) e.rss_warmup)),
      )
      ∷ []

  abbrev pub pool_members : List (Bytes × Json)
  pool_members =
      (codes "hash_pool_tiers", array (tiers real (used_tiers e.pools)))
      ∷ (
        codes "buf_pool",
        object (
            members_of (
              pool_fields real e.pools.buf_get e.pools.buf_new e.pools.buf_regrow
                e.pools.buf_regrow_bytes)),
      )
      ∷ (
        codes "parallax_chunk_pool",
        object (
            members_of (
              pool_fields real e.pools.chunk_get e.pools.chunk_new e.pools.chunk_regrow
                e.pools.chunk_regrow_bytes)),
      )
      ∷ []

  -- The forty-five keys with their values.
  unfoldable pub summary_document : Answers → Json
  summary_document a = object (
      members_of
        (measured_fields ++ (setup_fields a.auto_tier ++ (runtime_fields a ++ pool_members))))
